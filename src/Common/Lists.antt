-- ===== src/Common/Lists.antt =====
-- Lists measured and searched as the program does: `len`, slices, `any`, `filter`, `iter().find`,
-- and `iter_mut().find` with a write to the item that was found.
use Prim.Native.Nat.{ℕ, zero, suc, ◌+◌, ◌-◌, min}
use mathlib.Core.Path.{◌≡◌, refl, subst}
use mathlib.Core.Bool.{Bool, true, false, ◌||◌}
use mathlib.Core.List.{List, [], ◌∷◌, ◌++◌}
use mathlib.Core.Option
use mathlib.Core.Option.{Option, none, some}
use native.Mathlib.Omega.{arith}
use mathlib.Core.Logic.{inl, inr}
use mascara.Common.Tests.{if◌then◌else◌, Bool-cases}

module _ {ℓ} {A : Type ℓ} where
  abbrev pub length : List A → ℕ
  length [] = 0
  length (x ∷ xs) = suc (length xs)

  abbrev pub take : ℕ → List A → List A
  take zero xs = []
  take (suc n) [] = []
  take (suc n) (x ∷ xs) = x ∷ take n xs

  abbrev pub drop : ℕ → List A → List A
  drop zero xs = xs
  drop (suc n) [] = []
  drop (suc n) (x ∷ xs) = drop n xs

  pub length-append : (xs ys : List A) → length (xs ++ ys) ≡ length xs + length ys
  length-append [] ys = omega arith
  length-append (x ∷ xs) ys = omega (arith, length-append xs ys)

  pub take-append-drop : (n : ℕ) (xs : List A) → take n xs ++ drop n xs ≡ xs
  take-append-drop zero xs = refl
  take-append-drop (suc n) [] = refl
  take-append-drop (suc n) (x ∷ xs) = rw (take-append-drop n xs)

  pub length-take : (n : ℕ) (xs : List A) → length (take n xs) ≡ min n (length xs)
  length-take zero xs = omega arith
  length-take (suc n) [] = omega arith
  length-take (suc n) (x ∷ xs) = omega (arith, length-take n xs)

  pub length-drop : (n : ℕ) (xs : List A) → length (drop n xs) ≡ length xs - n
  length-drop zero xs = omega arith
  length-drop (suc n) [] = omega arith
  length-drop (suc n) (x ∷ xs) = omega (arith, length-drop n xs)

-- Holds of every item; computes to a tuple.
abbrev pub All {ℓ κ} : {A : Type ℓ} → (A → Type κ) → List A → Type κ
All P [] = Unit
All P (x ∷ xs) = P x × All P xs

pub All-map {ℓ κ ι} :
    {A : Type ℓ} {P : A → Type κ} {Q : A → Type ι} (xs : List A)
    → ((a : A) → P a → Q a)
    → All P xs
    → All Q xs
All-map [] f h = tt
All-map (x ∷ xs) f h = (f x h.0, All-map xs f h.1)

pub All-append {ℓ κ} :
    {A : Type ℓ} (P : A → Type κ) (xs ys : List A) → All P xs → All P ys → All P (xs ++ ys)
All-append P [] ys h k = k
All-append P (x ∷ xs) ys h k = (h.0, All-append P xs ys h.1 k)

-- The items are searched from the front, as the program's iterators do.
module _ {ℓ} {A : Type ℓ} (p : A → Bool) where
  abbrev pub any : List A → Bool
  any [] = false
  any (x ∷ xs) = p x || any xs

  abbrev pub filter : List A → List A
  filter [] = []
  filter (x ∷ xs) = if p x then x ∷ filter xs else filter xs

  abbrev pub find : List A → Option A
  find [] = none
  find (x ∷ xs) = if p x then some x else find xs

  -- `iter_mut().find(p)`, and `f` written to what it finds.
  abbrev pub update_first : (A → A) → List A → List A
  update_first f [] = []
  update_first f (x ∷ xs) = if p x then f x ∷ xs else x ∷ update_first f xs

module _ {ℓ} {A : Type ℓ} (p : A → Bool) where
  pub any-find : (xs : List A) → any p xs ≡ false → find p xs ≡ none
  any-find [] h = refl
  any-find (x ∷ xs) h = ground (arith, any-find xs)

  pub find-test : (xs : List A) (a : A) → find p xs ≡ some a → p a ≡ true
  find-test [] a h = cc
  find-test (x ∷ xs) a h = ground (arith, find-test xs a)

  pub find-All {κ} : (P : A → Type κ) (xs : List A) (a : A) → All P xs → find p xs ≡ some a → P a
  find-All P [] a h e = cc
  find-All P (x ∷ xs) a h e = elim (Bool-cases (p x)) [
    | inl t ↦ subst P (cc (rw t at e)) h.0
    | inr f ↦ find-All P xs a h.1 (rw f at e)
  ]

  pub find-append :
      (xs : List A) (y : A)
      → find p (xs ++ y ∷ [])
        ≡ elim (find p xs) [ none ↦ if p y then some y else none | some a ↦ some a ]
  find-append [] y = refl
  find-append (x ∷ xs) y = ground (arith, find-append xs y)

  pub length-update_first : (f : A → A) (xs : List A) → length (update_first p f xs) ≡ length xs
  length-update_first f [] = refl
  length-update_first f (x ∷ xs) = ground (arith, length-update_first f xs)

  pub All-update_first {κ} :
      (P : A → Type κ) (f : A → A) (xs : List A)
      → ((a : A) → p a ≡ true → P a → P (f a))
      → All P xs
      → All P (update_first p f xs)
  All-update_first P f [] k h = tt
  All-update_first P f (x ∷ xs) k h = elim (Bool-cases (p x)) [
    | inl t ↦ rw t (k x t h.0, h.1)
    | inr n ↦ rw n (h.0, All-update_first P f xs k h.1)
  ]

  -- A search for what was written finds it, if the write does not hide it from the search.
  pub find-update_first_self :
      (f : A → A) (xs : List A)
      → ((a : A) → p a ≡ true → p (f a) ≡ true)
      → find p (update_first p f xs) ≡ Option.map f (find p xs)
  find-update_first_self f [] k = refl
  find-update_first_self f (x ∷ xs) k = elim (Bool-cases (p x)) [
    | inl t ↦ rw (t, k x t) refl
    | inr n ↦ rw (n, n) (find-update_first_self f xs k)
  ]

  -- Another search is not disturbed by the write.
  pub find-update_first_ne :
      (q : A → Bool) (f : A → A) (xs : List A)
      → ((a : A) → p a ≡ true → q a ≡ false)
      → ((a : A) → p a ≡ true → q (f a) ≡ false)
      → find q (update_first p f xs) ≡ find q xs
  find-update_first_ne q f [] k k' = refl
  find-update_first_ne q f (x ∷ xs) k k' = elim (Bool-cases (p x)) [
    | inl t ↦ rw (t, k x t, k' x t) refl
    | inr n ↦ rw n (rw (find-update_first_ne q f xs k k'))
  ]
