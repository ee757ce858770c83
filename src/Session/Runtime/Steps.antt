-- ===== src/Session/Runtime/Steps.antt =====
-- Steps of a receiver's runtime (src-tauri/src/session_runtime.rs) that keep its invariant, and sequences of them.
use mykvm.Base.{ok, ◌≡◌, Bool, Result, Bool-cases, inl, inr}
use mykvm.Ports.{InjectorPort}
use mykvm.Session.Types.{Runtime, SessionRuntimeError}
use mykvm.Session.Runtime.{M, ◌>>=◌, release_pressed, fail_when, lift, pure, modify}
use mykvm.Session.Runtime.Invariant.{Inv, bind_cases, release_pressed-Inv}

-- A step that keeps the invariant, whether or not it fails.
pub record Safe {I A : Type 0} (m : M I A) : Type 0 where
  pub keeps : (r : Runtime I) → Inv r → Inv (m r).0

module _ {I : Type 0} where
  pub bind-Safe :
      {A B : Type 0} {m : M I A} {f : A → M I B} → Safe m → ((a : A) → Safe (f a)) → Safe (m >>= f)
  bind-Safe {A} {B} {m} {f} first rest = record {
    keeps = λ r v.
        bind_cases m f r Inv (λ a e. (rest a).keeps (m r).0 (first.keeps r v))
          (λ x e. first.keeps r v);
  }

  pub fail_when-Safe : (test : Runtime I → Bool) (e : SessionRuntimeError) → Safe (fail_when test e)
  fail_when-Safe test e = record {
    keeps = λ r v. elim (Bool-cases (test r)) [ inl t ↦ rw t v | inr t ↦ rw t v ];
  }

  pub lift-Safe : {A : Type 0} (f : Runtime I → Result SessionRuntimeError A) → Safe (lift f)
  lift-Safe f = record { keeps = λ r v. v }

  pub pure-Safe : {A : Type 0} (a : A) → Safe {I = I} (pure a)
  pure-Safe a = record { keeps = λ r v. v }

  pub modify-Safe :
      (f : Runtime I → Runtime I) → ((r : Runtime I) → Inv r → Inv (f r)) → Safe (modify f)
  modify-Safe f h = record { keeps = h }

module _ {I : Type 0} (port : InjectorPort I) where
  pub release-Safe : Safe (release_pressed port)
  release-Safe = record { keeps = release_pressed-Inv port }

-- A step that keeps the invariant at one state.
pub record Good {I A : Type 0} (m : M I A) (r : Runtime I) : Type 0 where
  pub inv : Inv (m r).0

pub bind-Good :
    {I A B : Type 0} {m : M I A} {f : A → M I B} {r : Runtime I}
    → Good m r
    → ((a : A) → (m r).1 ≡ ok a → Good (f a) (m r).0)
    → Good (m >>= f) r
bind-Good {m = m} {f = f} {r = r} first rest = record {
  inv = bind_cases m f r Inv (λ a e. (rest a e).inv) (λ x e. first.inv);
}
