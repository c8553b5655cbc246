-- ===== src/Common/Tests.antt =====
-- Boolean tests, the conditional, and equality as an interface (Rust's `PartialEq`).
use Prim.Native.Nat.{ℕ, compare, Ordering}
use mathlib.Core.Path.{◌≡◌, refl, ap, ◌∙◌, sym}
use mathlib.Core.Logic.{◌↔◌, ◌⊎◌, inl, inr, ◌≢◌}
use mathlib.Core.Bool.{Bool, true, false, ◌&&◌}
use mathlib.Core.Option.{Option, none, some}
use mathlib.Core.List.{List, [], ◌∷◌}
use native.Mathlib.Omega.{arith}

-- These compute to `compare`, which `ground` and `grind` read with no lemma listed.
abbrev pub ltb : ℕ → ℕ → Bool
ltb a b = elim (compare a b) [ Ordering.lt ↦ true | _ ↦ false ]

abbrev pub leb : ℕ → ℕ → Bool
leb a b = elim (compare a b) [ Ordering.gt ↦ false | _ ↦ true ]

abbrev pub eqb : ℕ → ℕ → Bool
eqb a b = elim (compare a b) [ Ordering.eq ↦ true | _ ↦ false ]

infix 1 if◌then◌else◌
abbrev pub if◌then◌else◌ {ℓ} : {A : Type ℓ} → Bool → A → A → A
if true then x else y = x
if false then x else y = y

pub eqb_iff : (a b : ℕ) → (eqb a b ≡ true) ↔ (a ≡ b)
eqb_iff a b = ground arith

-- To split on a computed value and keep the equation.
pub Bool-cases : (b : Bool) → (b ≡ true) ⊎ (b ≡ false)
Bool-cases true = inl refl
Bool-cases false = inr refl

pub Option-cases {ℓ} : {A : Type ℓ} (o : Option A) → (o ≡ none) ⊎ ((a : A) × (o ≡ some a))
Option-cases none = inl refl
Option-cases (some a) = inr (a, refl)

-- A test on an option: `Option::is_some_and`, `Option::is_none_or`.
abbrev pub is_some_and {ℓ} : {A : Type ℓ} → Option A → (A → Bool) → Bool
is_some_and none p = false
is_some_and (some a) p = p a

abbrev pub is_none_or {ℓ} : {A : Type ℓ} → Option A → (A → Bool) → Bool
is_none_or none p = true
is_none_or (some a) p = p a

abbrev pub is_none {ℓ} : {A : Type ℓ} → Option A → Bool
is_none none = true
is_none (some a) = false

pub record PartialEq {ℓ} (A : Type ℓ) : Type ℓ where
  pub eq_test : A → A → Bool
  pub eq_test_iff : (a b : A) → (eq_test a b ≡ true) ↔ (a ≡ b)

infix 50 ◌==◌
abbrev pub ◌==◌ {ℓ} : {A : Type ℓ} ⦃d : PartialEq A⦄ → A → A → Bool
◌==◌ ⦃d⦄ x y = d.eq_test x y

instance abbrev pub nat_eq : PartialEq ℕ
nat_eq = record { eq_test = eqb; eq_test_iff = eqb_iff }

module _ {ℓ} {A : Type ℓ} ⦃e : PartialEq A⦄ where
  pub eq_iff : (a b : A) → ((a == b) ≡ true) ↔ (a ≡ b)
  eq_iff a b = e.eq_test_iff a b

  pub eq_refl : (a : A) → (a == a) ≡ true
  eq_refl a = (e.eq_test_iff a a).1 refl

  pub eq_false : (a b : A) → a ≢ b → (a == b) ≡ false
  eq_false a b h = elim (Bool-cases (a == b)) [
    | inl t ↦ absurd (h ((e.eq_test_iff a b).0 t))
    | inr f ↦ f
  ]

  pub ne_of_eq_false : (a b : A) → (a == b) ≡ false → a ≢ b
  ne_of_eq_false a b h p = cc (h, (e.eq_test_iff a b).1 p)

  pub eq_comm : (a b : A) → (a == b) ≡ (b == a)
  eq_comm a b = elim (Bool-cases (b == a)) [
    | inl t ↦ rw t ((e.eq_test_iff a b).1 (sym ((e.eq_test_iff b a).0 t)))
    | inr f ↦ rw f (eq_false a b (λ p. ne_of_eq_false b a f (sym p)))
  ]

  -- Lists are compared item by item.
  unfoldable pub list_beq : List A → List A → Bool
  list_beq [] [] = true
  list_beq (x ∷ xs) (y ∷ ys) = x == y && list_beq xs ys
  list_beq xs ys = false

  list_beq_sound : (xs ys : List A) → list_beq xs ys ≡ true → xs ≡ ys
  unfolding list_beq
  list_beq_sound [] [] h = refl
  list_beq_sound [] (y ∷ ys) h = cc
  list_beq_sound (x ∷ xs) [] h = cc
  list_beq_sound (x ∷ xs) (y ∷ ys) h = ground (arith, e.eq_test_iff x y, list_beq_sound xs ys)

  list_beq_refl : (xs : List A) → list_beq xs xs ≡ true
  unfolding list_beq
  list_beq_refl [] = refl
  list_beq_refl (x ∷ xs) = ground (arith, eq_refl x, list_beq_refl xs)

  pub list_beq_iff : (xs ys : List A) → (list_beq xs ys ≡ true) ↔ (xs ≡ ys)
  list_beq_iff xs ys = (list_beq_sound xs ys, λ p. ap (list_beq xs) (sym p) ∙ list_beq_refl xs)

  instance abbrev pub list_eq : PartialEq (List A)
  list_eq = record { eq_test = list_beq; eq_test_iff = list_beq_iff }

  unfoldable pub option_beq : Option A → Option A → Bool
  option_beq none none = true
  option_beq (some x) (some y) = x == y
  option_beq x y = false

  pub option_beq_iff : (x y : Option A) → (option_beq x y ≡ true) ↔ (x ≡ y)
  unfolding option_beq
  option_beq_iff none none = (λ _. refl, λ _. refl)
  option_beq_iff none (some y) = (λ h. cc, λ h. cc)
  option_beq_iff (some x) none = (λ h. cc, λ h. cc)
  option_beq_iff (some x) (some y) =
      (λ h. ground (arith, e.eq_test_iff x y), λ h. ground (arith, e.eq_test_iff x y))

  instance abbrev pub option_eq : PartialEq (Option A)
  option_eq = record { eq_test = option_beq; eq_test_iff = option_beq_iff }

-- A test that is decided, in a hypothesis.
pub then_branch {ℓ} :
    {A : Type ℓ} {z : A} (b : Bool) (x y : A) → b ≡ true → (if b then x else y) ≡ z → x ≡ z
then_branch true x y t h = h
then_branch false x y t h = cc

pub else_branch {ℓ} :
    {A : Type ℓ} {z : A} (b : Bool) (x y : A) → b ≡ false → (if b then x else y) ≡ z → y ≡ z
else_branch true x y t h = cc
else_branch false x y t h = h
