-- ===== src/Base/Lists.antt =====
-- Lists measured by native numbers, searched by Boolean tests.
use Prim.Native.Nat.{ℕ, zero, suc, ◌+◌, ◌-◌, min}
use mathlib.Core.Path.{◌≡◌, refl, ap}
use mathlib.Core.Bool.{Bool, true, false, ◌||◌, ◌&&◌}
use mathlib.Core.List.{List, [], ◌∷◌, ◌++◌, Memᴰ}
use mathlib.Core.Logic.{◌⊎◌, inl, inr}
use mathlib.Core.Option.{Option, none, some}
use native.Mathlib.Omega.{arith}
use mykvm.Base.Tests.{if◌then◌else◌, some_same}

module _ {ℓ} {A : Type ℓ} where
  abbrev pub length : List A → ℕ
  length [] = 0
  length (x ∷ xs) = suc (length xs)

  abbrev pub take : ℕ → List A → List A
  take zero xs = []
  take (suc n) [] = []
  take (suc n) (x ∷ xs) = x ∷ take n xs

  abbrev pub drop : ℕ → List A → List A
  drop zero xs = xs
  drop (suc n) [] = []
  drop (suc n) (x ∷ xs) = drop n xs

  -- `iter().any(..)`, `iter().all(..)` and `iter().find(..)`.
  abbrev pub any : (A → Bool) → List A → Bool
  any p [] = false
  any p (x ∷ xs) = p x || any p xs

  abbrev pub all : (A → Bool) → List A → Bool
  all p [] = true
  all p (x ∷ xs) = p x && all p xs

  abbrev pub find : (A → Bool) → List A → Option A
  find p [] = none
  find p (x ∷ xs) = if p x then some x else find p xs

  abbrev pub is_nil : List A → Bool
  is_nil [] = true
  is_nil (x ∷ xs) = false

  pub length-append : (xs ys : List A) → length (xs ++ ys) ≡ length xs + length ys
  length-append [] ys = omega arith
  length-append (x ∷ xs) ys = omega (arith, length-append xs ys)

  pub take-append-drop : (n : ℕ) (xs : List A) → take n xs ++ drop n xs ≡ xs
  take-append-drop zero xs = refl
  take-append-drop (suc n) [] = refl
  take-append-drop (suc n) (x ∷ xs) = rw (take-append-drop n xs)

  pub length-drop : (n : ℕ) (xs : List A) → length (drop n xs) ≡ length xs - n
  length-drop zero xs = omega arith
  length-drop (suc n) [] = omega arith
  length-drop (suc n) (x ∷ xs) = omega (arith, length-drop n xs)

  pub length-take : (n : ℕ) (xs : List A) → length (take n xs) ≡ min n (length xs)
  length-take zero xs = omega arith
  length-take (suc n) [] = omega arith
  length-take (suc n) (x ∷ xs) = omega (arith, length-take n xs)

  abbrev pub get_elem? : List A → ℕ → Option A
  get_elem? [] i = none
  get_elem? (x ∷ xs) zero = some x
  get_elem? (x ∷ xs) (suc i) = get_elem? xs i

  -- A write out of bounds changes nothing.
  abbrev pub set : List A → ℕ → A → List A
  set [] i v = []
  set (x ∷ xs) zero v = v ∷ xs
  set (x ∷ xs) (suc i) v = x ∷ set xs i v

  abbrev pub replicate : ℕ → A → List A
  replicate zero x = []
  replicate (suc n) x = x ∷ replicate n x

  abbrev pub total : (A → ℕ) → List A → ℕ
  total f [] = 0
  total f (x ∷ xs) = f x + total f xs

  pub total-append : (f : A → ℕ) (xs ys : List A) → total f (xs ++ ys) ≡ total f xs + total f ys
  total-append f [] ys = omega arith
  total-append f (x ∷ xs) ys = omega (arith, total-append f xs ys)

  -- What the other elements weigh, whatever the element at this place turns into.
  pub total-set :
      (f : A → ℕ) (xs : List A) (i : ℕ) (x : A)
      → get_elem? xs i ≡ some x
      → (rest : ℕ) × (total f xs ≡ f x + rest) × ((y : A) → total f (set xs i y) ≡ f y + rest)
  total-set f [] i x e = absurd (cc)
  total-set f (y ∷ xs) zero x e = (total f xs, ap (λ t. f t + total f xs) (some_same e), λ z. refl)
  total-set f (y ∷ xs) (suc i) x e =
      let ih = total-set f xs i x e in (f y + ih.0, omega (arith, ih.1), λ z. omega (arith, ih.2 z))

  -- Membership, by the places of a list.
  pub mem_uncons : {q p : A} {ps : List A} → Memᴰ q (p ∷ ps) → (q ≡ p) ⊎ Memᴰ q ps
  mem_uncons (Memᴰ.head e) = inl e
  mem_uncons (Memᴰ.tail m) = inr m

  pub mem_snoc : {q : A} (ps : List A) (r : A) → Memᴰ q (ps ++ (r ∷ [])) → Memᴰ q ps ⊎ (q ≡ r)
  mem_snoc [] r m = elim (mem_uncons m) [ inl e ↦ inr e | inr n ↦ elim n [ ] ]
  mem_snoc (p ∷ ps) r m = elim (mem_uncons m) [
    | inl e ↦ inl (Memᴰ.head e)
    | inr n ↦ elim (mem_snoc ps r n) [ inl k ↦ inl (Memᴰ.tail k) | inr e ↦ inr e ]
  ]

  pub snoc_mem : (ps : List A) (r : A) → Memᴰ r (ps ++ (r ∷ []))
  snoc_mem [] r = Memᴰ.head refl
  snoc_mem (p ∷ ps) r = Memᴰ.tail (snoc_mem ps r)

  pub mem_left : {q : A} (ps rs : List A) → Memᴰ q ps → Memᴰ q (ps ++ rs)
  mem_left [] rs m = elim m [ ]
  mem_left (p ∷ ps) rs (Memᴰ.head e) = Memᴰ.head e
  mem_left (p ∷ ps) rs (Memᴰ.tail m) = Memᴰ.tail (mem_left ps rs m)
