-- ===== src/Routing/Order.antt =====
-- The gate of src-tauri/src/routing.rs only moves forward.
use mykvm.Base.{ℕ, suc, zero, ◌≤◌, ◌<◌, ◌≡◌, true, false, some, arith, u64_max, u64_mod}
use mykvm.Routing.Gate.{with_local, is_local, request_local, reserve, activate, requested}

abbrev pub IsWord : ℕ → Type 0
IsWord v = v < u64_mod

-- What a call of `request_local` does to the gate, or several of them.
pub record Requested (v w : ℕ) : Type 0 where
  pub word : IsWord w
  pub closed : is_local v ≡ true → is_local w ≡ true
  pub grown : with_local v ≤ with_local w

pub request_local-Requested : (v : ℕ) → IsWord v → Requested v (request_local v)
unfolding request_local is_local
request_local-Requested v w = ground arith

pub request_local_closes : (v : ℕ) → IsWord v → is_local (request_local v) ≡ true
unfolding request_local is_local
request_local_closes v w = ground arith

-- A generation that the gate has reached is passed by one more request.
pub request_local_passes :
    (g v : ℕ) → IsWord v → g < u64_max → g ≤ with_local v → g < with_local (request_local v)
unfolding request_local
request_local_passes g v w small le = ground arith

Requested-trans : {u v w : ℕ} → Requested u v → Requested v w → Requested u w
Requested-trans a b = record {
  word = b.word;
  closed = λ h. b.closed (a.closed h);
  grown = omega arith;
}

pub requested-Requested : (n v : ℕ) → IsWord v → Requested v (requested n v)
unfolding requested
requested-Requested zero v w = record { word = w; closed = λ h. h; grown = omega arith }
requested-Requested (suc n) v w =
    let one = request_local-Requested v w in
    Requested-trans one (requested-Requested n (request_local v) one.word)

-- The gate after `request_local` and what other threads ask for after it.
pub home-Requested :
    (n v : ℕ)
    → IsWord v
    → Requested v (requested n (request_local v))
      × (is_local (requested n (request_local v)) ≡ true)
home-Requested n v w =
    let one = request_local-Requested v w in
    let rest = requested-Requested n (request_local v) one.word in
    (Requested-trans one rest, rest.closed (request_local_closes v w))

-- A reserved generation is new, odd and not the last one.
pub reserve_fresh :
    (v g : ℕ)
    → IsWord v
    → reserve v ≡ some g
    → (with_local v < g) × (g < u64_max) × (is_local g ≡ true)
unfolding reserve is_local
reserve_fresh v g w e = ground arith

-- The compare-exchange opens the gate at the generation that it names, if that is still current.
pub activate_opens :
    (v g w : ℕ)
    → activate v g ≡ some w
    → (v ≡ g) × (is_local w ≡ false) × (is_local g ≡ true → with_local v ≤ with_local w) × (w ≤ g)
unfolding activate is_local
activate_opens v g w e = ground arith
