-- ===== src/Base/Orders.antt =====
-- Laws of a three-way comparison, kept by lexicographic composition: the derived `Ord` of a struct.
use Prim.Native.Nat.{ℕ, Ordering, compare}
use Prim.Native.Char.{code}
use Prim.Native.String.{String, then as and_then, compare as compare_text}
use Prim.Native.String.compare as clauses
use mathlib.Core.Path.{◌≡◌, refl, sym, subst}
use native.Mathlib.Omega.{arith}

abbrev pub opposite : Ordering → Ordering
opposite Ordering.lt = Ordering.gt
opposite Ordering.eq = Ordering.eq
opposite Ordering.gt = Ordering.lt

-- What `compare a b` and `compare b c` say of `compare a c`.
abbrev pub Chain : Ordering → Ordering → Ordering → Type 0
Chain Ordering.eq p q = q ≡ p
Chain Ordering.lt Ordering.gt q = Unit {0}
Chain Ordering.lt p q = q ≡ Ordering.lt
Chain Ordering.gt Ordering.lt q = Unit {0}
Chain Ordering.gt p q = q ≡ Ordering.gt

pub record Compares {ℓ} {A : Type ℓ} (cmp : A → A → Ordering) : Type ℓ where
  pub flips : (a b : A) → cmp b a ≡ opposite (cmp a b)
  pub chains : (a b c : A) → Chain (cmp a b) (cmp b c) (cmp a c)

pub and_then-flips :
    (o p q r : Ordering) → p ≡ opposite o → r ≡ opposite q → and_then p r ≡ opposite (and_then o q)
and_then-flips Ordering.lt p q r e f = rw e refl
and_then-flips Ordering.eq p q r e f = rw e f
and_then-flips Ordering.gt p q r e f = rw e refl

pub and_then-Chain :
    (o p q o' p' q' : Ordering)
    → Chain o p q
    → Chain o' p' q'
    → Chain (and_then o o') (and_then p p') (and_then q q')
and_then-Chain Ordering.eq Ordering.eq q o' p' q' h k = rw h k
and_then-Chain Ordering.eq Ordering.lt q Ordering.lt p' q' h k = rw h refl
and_then-Chain Ordering.eq Ordering.lt q Ordering.eq p' q' h k = rw h refl
and_then-Chain Ordering.eq Ordering.lt q Ordering.gt p' q' h k = tt
and_then-Chain Ordering.eq Ordering.gt q Ordering.lt p' q' h k = tt
and_then-Chain Ordering.eq Ordering.gt q Ordering.eq p' q' h k = rw h refl
and_then-Chain Ordering.eq Ordering.gt q Ordering.gt p' q' h k = rw h refl
and_then-Chain Ordering.lt Ordering.lt q o' p' q' h k = rw h refl
and_then-Chain Ordering.lt Ordering.eq q o' Ordering.lt q' h k = rw h refl
and_then-Chain Ordering.lt Ordering.eq q o' Ordering.eq q' h k = rw h refl
and_then-Chain Ordering.lt Ordering.eq q o' Ordering.gt q' h k = tt
and_then-Chain Ordering.lt Ordering.gt q o' p' q' h k = tt
and_then-Chain Ordering.gt Ordering.gt q o' p' q' h k = rw h refl
and_then-Chain Ordering.gt Ordering.eq q o' Ordering.gt q' h k = rw h refl
and_then-Chain Ordering.gt Ordering.eq q o' Ordering.eq q' h k = rw h refl
and_then-Chain Ordering.gt Ordering.eq q o' Ordering.lt q' h k = tt
and_then-Chain Ordering.gt Ordering.lt q o' p' q' h k = tt

pub numbers_compare : Compares compare
numbers_compare = record { flips = number_flips; chains = number_chains }
  where
    number_flips : (a b : ℕ) → compare b a ≡ opposite (compare a b)
    number_flips a b = ground arith

    number_chains : (a b c : ℕ) → Chain (compare a b) (compare b c) (compare a c)
    number_chains a b c = ground arith

Chain-lt : (o : Ordering) → Chain Ordering.lt o Ordering.lt
Chain-lt Ordering.lt = refl
Chain-lt Ordering.eq = refl
Chain-lt Ordering.gt = tt

Chain-gt : (o : Ordering) → Chain o Ordering.gt Ordering.gt
Chain-gt Ordering.lt = tt
Chain-gt Ordering.eq = refl
Chain-gt Ordering.gt = refl

Chain-by : {o o' p p' q q' : Ordering} → o ≡ o' → p ≡ p' → q ≡ q' → Chain o' p' q' → Chain o p q
Chain-by {o} {o'} {p} {p'} {q} {q'} e f g h =
    subst (λ (x : Ordering). Chain x p q) (sym e)
      (subst (λ (x : Ordering). Chain o' x q) (sym f)
        (subst (λ (x : Ordering). Chain o' p' x) (sym g) h))

text_flips : (s t : String) → compare_text t s ≡ opposite (compare_text s t)
text_flips String.[] String.[] = rw clauses.nil-nil refl
text_flips String.[] (String.◌∷◌ d t) = rw (clauses.nil-cons d t, clauses.cons-nil d t) refl
text_flips (String.◌∷◌ c s) String.[] = rw (clauses.nil-cons c s, clauses.cons-nil c s) refl
text_flips (String.◌∷◌ c s) (String.◌∷◌ d t) =
    rw (clauses.cons-cons c d s t, clauses.cons-cons d c t s)
      (and_then-flips (compare (code c) (code d)) (compare (code d) (code c)) (compare_text s t)
        (compare_text t s) (numbers_compare.flips (code c) (code d)) (text_flips s t))

text_chains : (s t u : String) → Chain (compare_text s t) (compare_text t u) (compare_text s u)
text_chains String.[] String.[] u = Chain-by clauses.nil-nil refl refl refl
text_chains String.[] (String.◌∷◌ d t) String.[] =
    Chain-by (clauses.nil-cons d t) (clauses.cons-nil d t) clauses.nil-nil tt
text_chains String.[] (String.◌∷◌ d t) (String.◌∷◌ e u) =
    Chain-by (clauses.nil-cons d t) refl (clauses.nil-cons e u)
      (Chain-lt (compare_text (String.◌∷◌ d t) (String.◌∷◌ e u)))
text_chains (String.◌∷◌ c s) String.[] String.[] =
    Chain-by (clauses.cons-nil c s) clauses.nil-nil (clauses.cons-nil c s) refl
text_chains (String.◌∷◌ c s) String.[] (String.◌∷◌ e u) =
    Chain-by (clauses.cons-nil c s) (clauses.nil-cons e u) refl tt
text_chains (String.◌∷◌ c s) (String.◌∷◌ d t) String.[] =
    Chain-by refl (clauses.cons-nil d t) (clauses.cons-nil c s)
      (Chain-gt (compare_text (String.◌∷◌ c s) (String.◌∷◌ d t)))
text_chains (String.◌∷◌ c s) (String.◌∷◌ d t) (String.◌∷◌ e u) =
    Chain-by (clauses.cons-cons c d s t) (clauses.cons-cons d e t u) (clauses.cons-cons c e s u) (
      and_then-Chain (compare (code c) (code d)) (compare (code d) (code e))
        (compare (code c) (code e)) (compare_text s t) (compare_text t u) (compare_text s u)
        (numbers_compare.chains (code c) (code d) (code e)) (text_chains s t u))

pub texts_compare : Compares compare_text
texts_compare = record { flips = text_flips; chains = text_chains }
