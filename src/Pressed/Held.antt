-- ===== src/Pressed/Held.antt =====
-- The lists of held keys and buttons of src-tauri/src/pressed_state.rs under `push`, `position` with
-- `remove`, `pop` and the two pointer moves.
use mykvm.Base.{
  Bool, true, false, ◌||◌, ◌≡◌, refl, ap, inl, inr, none, some, List, [], ◌∷◌, ◌++◌, map, reverse,
  arith, ℤ, any, Bool-cases, Option-cases, ◌∙◌,
}
use mathlib.Core.List.{reverse-cons}
use mykvm.Input.{MouseButton}
use mykvm.Pressed.{HeldButton, has_button, take_first, move_first, move_held}

module _ {ℓ} {A : Type ℓ} (p : A → Bool) where
  pub any-append : (xs ys : List A) → any p (xs ++ ys) ≡ (any p xs || any p ys)
  any-append [] ys = refl
  any-append (x ∷ xs) ys = ground (arith, any-append xs ys)

  pub any-reverse : (xs : List A) → any p (reverse xs) ≡ any p xs
  any-reverse [] = refl
  any-reverse (x ∷ xs) =
      ap (any p) (reverse-cons x xs)
      ∙ ground (arith, any-append (reverse xs) (x ∷ []), any-reverse xs)

  pub take_first-eq-none : (xs : List A) → take_first p xs ≡ none → any p xs ≡ false
  unfolding take_first
  take_first-eq-none [] e = refl
  take_first-eq-none (x ∷ xs) e = ground (arith, take_first-eq-none xs)

  -- What is taken passes the test, and any other test holds of the list as of its two parts.
  pub take_first-found :
      (xs : List A) (a : A) (rest : List A) → take_first p xs ≡ some (a, rest) → p a ≡ true
  unfolding take_first
  take_first-found [] a rest e = cc
  take_first-found (x ∷ xs) a rest e = elim (Bool-cases (p x)) [
    | inl hit ↦ ground arith
    | inr miss ↦ elim (Option-cases (take_first p xs)) [
      | inl e' ↦ ground arith
      | inr (r, e') ↦ ground (arith, take_first-found xs r.0 r.1)
    ]
  ]

  pub any-take_first :
      (q : A → Bool) (xs : List A) (a : A) (rest : List A)
      → take_first p xs ≡ some (a, rest)
      → any q xs ≡ (q a || any q rest)
  unfolding take_first
  any-take_first q [] a rest e = cc
  any-take_first q (x ∷ xs) a rest e = elim (Bool-cases (p x)) [
    | inl hit ↦ ground arith
    | inr miss ↦ elim (Option-cases (take_first p xs)) [
      | inl e' ↦ ground arith
      | inr (r, e') ↦ ground (arith, any-take_first q xs r.0 r.1)
    ]
  ]

pub has_button-map :
    (b : MouseButton) (x y : ℤ) (held : List HeldButton)
    → has_button b (map (move_held x y) held) ≡ has_button b held
has_button-map b x y [] = refl
has_button-map b x y (h ∷ held) = ground (arith, has_button-map b x y held)

pub has_button-move_first :
    (b c : MouseButton) (x y : ℤ) (held : List HeldButton)
    → has_button b (move_first c x y held) ≡ has_button b held
unfolding move_first
has_button-move_first b c x y [] = refl
has_button-move_first b c x y (h ∷ held) = ground (arith, has_button-move_first b c x y held)
