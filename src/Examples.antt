-- ===== src/Examples.antt =====
-- Concrete runs of the models, at which the theorems with hypotheses are applied.
mod Client
mod Clipboard
mod Controller
mod Decoder
mod Handover
mod Hotkeys
mod Keys
mod Layout
mod Lease
mod Pairing
mod Protocol
mod Delivery
mod Transport
