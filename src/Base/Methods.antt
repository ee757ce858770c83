-- ===== src/Base/Methods.antt =====
-- `&mut self` methods that may fail: the state goes through, also past an error.
use mathlib.Core.Bool.{Bool, false}
use mathlib.Core.Path.{◌≡◌, ap}
use mykvm.Base.Results.{Result, ok, err}
use mykvm.Base.Tests.{if◌then◌else◌}

abbrev pub Method : Type 0 → Type 0 → Type 0 → Type 0
Method S E A = S → S × Result E A

module _ {S E : Type 0} where
  abbrev pub pure : {A : Type 0} → A → Method S E A
  pure a s = (s, ok a)

  infixl 5 ◌>>=◌ ◌>>◌
  abbrev pub ◌>>=◌ : {A B : Type 0} → Method S E A → (A → Method S E B) → Method S E B
  ◌>>=◌ m f s = let r = m s in elim r.1 [ ok a ↦ f a r.0 | err e ↦ (r.0, err e) ]

  abbrev pub ◌>>◌ : {B : Type 0} → Method S E (Unit {0}) → Method S E B → Method S E B
  m >> k = m >>= λ _. k

  abbrev pub modify : (S → S) → Method S E (Unit {0})
  modify f s = (f s, ok tt)

  -- A value read from the state, or an error.
  abbrev pub lift : {A : Type 0} → (S → Result E A) → Method S E A
  lift f s = (s, f s)

  abbrev pub fail_when : (S → Bool) → E → Method S E (Unit {0})
  fail_when test e s = if test s then (s, err e) else (s, ok tt)

  -- `if let Err(error) = m { cleanup; return Err(error) }`.
  abbrev pub cleaned : {A : Type 0} → (S → S) → Method S E A → Method S E A
  cleaned cleanup m s =
      let r = m s in elim r.1 [ ok a ↦ (r.0, ok a) | err e ↦ (cleanup r.0, err e) ]

  -- A guard that lets the method go on.
  pub passes :
      {B : Type 0} (test : S → Bool) (e : E) (k : Method S E B) (s : S)
      → test s ≡ false
      → (fail_when test e >> k) s ≡ k s
  passes {B} test e k s q =
      ap
        (λ b.
          let r : S × Result E (Unit {0}) = if b then (s, err e) else (s, ok tt) in
          elim r.1 as (λ _. S × Result E B) [ ok a ↦ k r.0 | err x ↦ (r.0, err x) ])
        q

  -- A method that goes on with the result of the first.
  pub continues :
      {A B : Type 0} (m : Method S E A) (k : A → Method S E B) (s t : S) (a : A)
      → m s ≡ (t, ok a)
      → (m >>= k) s ≡ k a t
  continues {A} {B} m k s t a q =
      ap (λ r. elim r.1 as (λ _. S × Result E B) [ ok a ↦ k a r.0 | err e ↦ (r.0, err e) ]) q
