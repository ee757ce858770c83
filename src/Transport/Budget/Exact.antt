-- ===== src/Transport/Budget/Exact.antt =====
-- A byte budget counts exactly what is reserved, in every interleaving.
use mykvm.Base.{
  ℕ, ◌+◌, ◌-◌, ◌≤◌, ◌<◌, Option, some, none, Bool, true, false, List, [], ◌∷◌, ◌≡◌, refl, ltb, leb,
  if◌then◌else◌, u64_mod, get_elem?, set, total, total-set, total-append, ap, arith,
}
use mykvm.Transport.Budget.{
  Account, BudgetEvent, Caller, asks, budget_exceeded, budget_overflow, budget_run, budget_step,
  comparing, drop_written, drops, finished, fresh, holding, loading, take_frame, receives, refused,
  fetch_sub, release_at, releases, reserve_bytes, reserve_at, reserves, send_at, sends,
}

abbrev pub held_by : Caller → ℕ
held_by (holding bytes) = bytes
held_by other = 0

abbrev pub size : ℕ → ℕ
size n = n

-- All the bytes that somebody holds: threads, the channel and its receiver.
abbrev pub all_held : Account → ℕ
all_held a = total held_by a.callers + total size a.queued + total size a.writing

record Counted (limit : ℕ) (a : Account) : Type 0 where
  exact : a.used ≡ all_held a
  bounded : a.used ≤ limit

fetch_sub_lem :
    (used bytes : ℕ) → used < u64_mod → bytes ≤ used → fetch_sub used bytes ≡ used - bytes
unfolding fetch_sub
fetch_sub_lem used bytes h k = omega arith

module _ (limit : ℕ) (fits : limit < u64_mod) where
  -- What one step of a reservation adds to the counter is what the thread then holds.
  reserve_bytes-adds :
      (spurious : Bool) (c : Caller) (used : ℕ)
      → used ≤ limit
      → let r = reserve_bytes limit spurious c used in
        (r.0 + held_by c ≡ used + held_by r.1) × (r.0 ≤ limit)
  unfolding reserve_bytes
  reserve_bytes-adds spurious (loading bytes) used h = (omega arith, h)
  reserve_bytes-adds spurious (comparing bytes seen) used h = ground arith
  reserve_bytes-adds spurious (holding bytes) used h = (omega arith, h)
  reserve_bytes-adds spurious (refused e) used h = (omega arith, h)
  reserve_bytes-adds spurious (finished accepted) used h = (omega arith, h)

  reserve_at-Counted :
      (place : ℕ) (spurious : Bool) (o : Option Caller) (a : Account)
      → get_elem? a.callers place ≡ o
      → Counted limit a
      → Counted limit (reserve_at limit place spurious o a)
  reserve_at-Counted place spurious none a e h = h
  reserve_at-Counted place spurious (some c) a e h =
      let t = total-set held_by a.callers place c e in
      let r = reserve_bytes-adds spurious c a.used h.bounded in
      record {
        exact = omega (arith, h.exact, t.1, t.2 (reserve_bytes limit spurious c a.used).1, r.0);
        bounded = r.1;
      }

  -- A thread's bytes go back.
  freed :
      (place : ℕ) (bytes : ℕ) (accepted : Bool) (a : Account)
      → get_elem? a.callers place ≡ some (holding bytes)
      → Counted limit a
      → Counted limit (record a {
        used = fetch_sub a.used bytes;
        callers = set a.callers place (finished accepted);
      })
  freed place bytes accepted a e h =
      let t = total-set held_by a.callers place (holding bytes) e in
      let r =
        fetch_sub_lem a.used bytes (omega (arith, h.bounded, fits)) (omega (arith, h.exact, t.1)) in
      record {
        exact = omega (arith, h.exact, t.1, t.2 (finished accepted), r);
        bounded = omega (arith, h.bounded, r);
      }

  send_at-Counted :
      (place : ℕ) (accepted : Bool) (o : Option Caller) (a : Account)
      → get_elem? a.callers place ≡ o
      → Counted limit a
      → Counted limit (send_at place accepted o a)
  send_at-Counted place true (some (holding bytes)) a e h =
      let t = total-set held_by a.callers place (holding bytes) e in
      record {
        exact =
            omega
              (arith, h.exact, t.1, t.2 (finished true), total-append size a.queued (bytes ∷ []));
        bounded = h.bounded;
      }
  send_at-Counted place false (some (holding bytes)) a e h = freed place bytes false a e h
  send_at-Counted place true (some (loading bytes)) a e h = h
  send_at-Counted place true (some (comparing bytes seen)) a e h = h
  send_at-Counted place true (some (refused x)) a e h = h
  send_at-Counted place true (some (finished x)) a e h = h
  send_at-Counted place true none a e h = h
  send_at-Counted place false (some (loading bytes)) a e h = h
  send_at-Counted place false (some (comparing bytes seen)) a e h = h
  send_at-Counted place false (some (refused x)) a e h = h
  send_at-Counted place false (some (finished x)) a e h = h
  send_at-Counted place false none a e h = h

  release_at-Counted :
      (place : ℕ) (o : Option Caller) (a : Account)
      → get_elem? a.callers place ≡ o
      → Counted limit a
      → Counted limit (release_at place o a)
  release_at-Counted place (some (holding bytes)) a e h = freed place bytes true a e h
  release_at-Counted place (some (loading bytes)) a e h = h
  release_at-Counted place (some (comparing bytes seen)) a e h = h
  release_at-Counted place (some (refused x)) a e h = h
  release_at-Counted place (some (finished x)) a e h = h
  release_at-Counted place none a e h = h

  take_frame-Counted :
      (l : List ℕ) (a : Account) → a.queued ≡ l → Counted limit a → Counted limit (take_frame l a)
  take_frame-Counted [] a e h = h
  take_frame-Counted (bytes ∷ rest) a e h = record {
    exact = omega (arith, h.exact, ap (total size) e);
    bounded = h.bounded;
  }

  drop_written-Counted :
      (l : List ℕ) (a : Account)
      → a.writing ≡ l
      → Counted limit a
      → Counted limit (drop_written l a)
  drop_written-Counted [] a e h = h
  drop_written-Counted (bytes ∷ rest) a e h =
      let t = ap (total size) e in
      let r =
        fetch_sub_lem a.used bytes (omega (arith, h.bounded, fits)) (omega (arith, h.exact, t)) in
      record { exact = omega (arith, h.exact, t, r); bounded = omega (arith, h.bounded, r) }

  budget_step-Counted :
      (e : BudgetEvent) (a : Account) → Counted limit a → Counted limit (budget_step limit e a)
  unfolding budget_step
  budget_step-Counted (asks bytes) a h = record {
    exact = omega (arith, h.exact);
    bounded = h.bounded;
  }
  budget_step-Counted (reserves place spurious) a h =
      reserve_at-Counted place spurious (get_elem? a.callers place) a refl h
  budget_step-Counted (sends place accepted) a h =
      send_at-Counted place accepted (get_elem? a.callers place) a refl h
  budget_step-Counted (releases place) a h =
      release_at-Counted place (get_elem? a.callers place) a refl h
  budget_step-Counted receives a h = take_frame-Counted a.queued a refl h
  budget_step-Counted drops a h = drop_written-Counted a.writing a refl h

  run-from-Counted :
      (es : List BudgetEvent) (a : Account)
      → Counted limit a
      → Counted limit (budget_run limit es a)
  unfolding budget_run
  run-from-Counted [] a h = h
  run-from-Counted (e ∷ es) a h =
      run-from-Counted es (budget_step limit e a) (budget_step-Counted e a h)

  -- With a limit below 2^64, and however the loads, compare-exchanges (spurious failures included),
  -- sends, drops and the receiver's steps interleave: the counter is the sum of the bytes that
  -- threads, the channel and its receiver hold, and is at most the limit. So no `fetch_sub` wraps,
  -- also after a refused send, and nothing stays reserved once nobody holds anything.
  pub budget_run-exact :
      (es : List BudgetEvent)
      → let a = budget_run limit es fresh in (a.used ≡ all_held a) × (a.used ≤ limit)
  budget_run-exact es =
      let h = run-from-Counted es fresh (record { exact = omega arith; bounded = omega arith }) in
      (h.exact, h.bounded)

  -- With a limit below 2^64 and no other thread in between: a reservation succeeds, in its first
  -- round, exactly when the bytes fit into what is left; else it is refused and the counter is as
  -- before.
  pub reserve_bytes-alone :
      (bytes used : ℕ)
      → used ≤ limit
      → let loaded = reserve_bytes limit false (loading bytes) used in
        reserve_bytes limit false loaded.1 loaded.0 ≡ (
          if leb (used + bytes) limit then (used + bytes, holding bytes) else (
            used,
            refused (if ltb (used + bytes) u64_mod then budget_exceeded else budget_overflow),
          ))
  unfolding reserve_bytes
  reserve_bytes-alone bytes used h = ground arith
