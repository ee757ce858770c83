-- ===== src/Lib.antt =====
-- The control core of MyKVM: who has the keyboard and mouse, how two machines agree on a session, and
-- how the receiving machine plays input.
--
-- Parts and files.
--   Input, Ports        src-tauri/src/shared_input.rs (commands, buttons) and src-tauri/src/control_ports.rs: the
--                       platform's capture, focus and injector as records of operations over a state of
--                       their own.
--   Pressed             src-tauri/src/pressed_state.rs, the ledger of held keys and buttons: `apply`,
--                       `update_pointer`, `release_all`. Pressed/Desk is the contract, a keyboard and mouse on
--                       which a press of something down, or a release of something up, fails.
--   Protocol            src-tauri/src/protocol_v2.rs: Types (identifiers, frames, errors), Validate
--                       (`validate_*`), Codec (`encode_*`, `decode_*`), Decoder (`ControlDecoder`,
--                       `CriticalDecoder`), Gate (`InputSessionGate`), Receiver (`ReceiverHandshake`), Controller
--                       (`ControllerHandshake`), Handshake (both ends talking).
--   Routing             src-tauri/src/routing.rs: Gate (`LocalOverride`), Types, Router (`Router`).
--                       Routing/Router/Emergency has the histories: calls of the actor and requests for
--                       local control, in any order.
--   Session             src-tauri/src/session_runtime.rs: Types, Layout (`ReceiverDisplayLayout::map`), Modifiers
--                       (`remap_modifier_vk`), Runtime (state, release), Input (`handle_input_at`,
--                       `handle_motion_at`), Control (`handle_control_at`, the lease, the end of a stream,
--                       changed layouts), Histories (its calls in any order).
--   ControllerRuntime   src-tauri/src/controller_runtime.rs, `ControllerRuntime`: the state and what needs no
--                       port; Control (`begin`, `handle_control`, `advance`, `go_local`). Lockstep has the
--                       histories of its calls.
--   ControllerClient    src-tauri/src/controller_client.rs, `ControllerClient`: the state, `apply`,
--                       `fail_transport`, `poll_ping`; Calls (`begin`, `poll`, `send_input`, `send_motion`,
--                       `go_local`), Histories (its calls in any order). The transport is the record
--                       ControllerTransport; the inbox is the list of the frames that wait in it.
--   ClipboardSync       src-tauri/src/clipboard_sync.rs, `ClipboardSyncEngine`, with the operations of
--                       src-tauri/src/protocol_v2.rs; Order (which copy wins), Clock (copies made here).
--   Clipboard           what carries an operation to another machine: Frames (the bulk frames of
--                       src-tauri/src/protocol_v2.rs and the bounds of an image in src-tauri/src/clipboard.rs),
--                       Receive (`handle_v2_clipboard_operation_with_revision` of src-tauri/src/lib.rs), Wins,
--                       Kept and Winner (any sequence of deliveries), Clock (copies made here between
--                       deliveries), Delivery (one delivery), Arrival (from one machine to another).
--   Pairing             src-tauri/src/lib.rs: Identity (known controllers), Trusted (`upsert_trusted_peer`),
--                       Challenge (`begin_pairing_challenge`, `complete_pairing_from_confirm`), Checks and
--                       Histories (requests, confirmations, dismissals and resets in any order), Safety,
--                       Guesses, Refresh, Install (`quic_trusted_peers`).
--   Transport           src-tauri/src/quic_transport.rs: Motion (`MotionSlot`, `try_send`, `schedule_motion`,
--                       `flush_motion_nonblocking`), Budget (`BulkMemoryBudget`, `reserve_input_bytes`),
--                       Registry (`TrustedPeerRegistry`).
--   GameMode            src-tauri/src/game_mode.rs: `HotkeyDeduper`, `ControlActionSlot`,
--                       `dispatch_control_hotkey`.
--   Examples            concrete runs.
-- A receiver's runtime has a `ReceiverHandshake`, an `InputSessionGate` and a `PressedState`, and drives an
-- injector; the router drives a capture and a focus port and shares its gate with hooks and hotkeys. A
-- controller's runtime has a `Router` and a `ControllerHandshake`, each of which follows the other; the
-- client drives that runtime and a transport. A frame that arrives during a poll counts as arrived before
-- or after it.
--
-- How the code is read.
--   A `&mut self` method takes the state and gives the new one beside its result, also when it fails; a
--   method that changes nothing when it fails gives the new state or an error.
--   Byte arrays (`[u8; 16]`, `[u8; 32]`) are the numbers that their bytes spell; unsigned fields are numbers;
--   `i32` coordinates are integers, with the conversions that the code makes written out.
--   `checked_add` and `saturating_add` of `u64` are bounded at 2 ^ 64 - 1.
--   Time is an argument. The random nonce is an argument, `none` where no randomness is available.
--   `LocalOverride` is one number. Between a router's call of a port and the use of its result other
--   threads may ask for local control any number of times; the port says how often.
--   The loop of a decoder runs on fuel, one round for each byte of the chunk: every round takes a byte at
--   least, which is enough of them. Every other loop is over a list.
--   Threads that share memory (Transport/Motion, Transport/Budget) are programs with a place where each
--   stands; every access to a shared atomic, lock or channel is one step, and a history is any sequence
--   of their steps. No thread panics while it holds a lock. The calls of pairing and the deliveries of
--   the clipboard run one at a time, as their locks have it.
--   A history of pairing has its newest event first. Beside the state of a system's clipboard,
--   Clipboard/Kept notes the contents whose write succeeded, the newest first.
--   Methods that may fail half way are in Base/Methods: the state goes through, also past an error.
--
-- Parameters: the serializer of frames (rmp_serde), of which the round trips ask that it reads back what
-- it wrote; the digest of a text (SHA-256 of ring), the decoder of base64 and the system's clipboard, of
-- which nothing is asked.
--
-- Not modelled: the hash that names a layout revision, the connections of the QUIC transport, discovery,
-- the transfer of files, and what only calls the operating system, the network or the user
-- interface.
pub mod Base
pub mod Clipboard
pub mod ClipboardSync
pub mod ControllerClient
pub mod ControllerRuntime
pub mod Examples
pub mod GameMode
pub mod Input
pub mod Pairing
pub mod Ports
pub mod Pressed
pub mod Protocol
pub mod Routing
pub mod Session
pub mod Transport
