-- ===== src/Common/Outcome.antt =====
-- Rust's `Result<T, E>`, with `?` as bind.
use mathlib.Core.Path.{◌≡◌, refl, ap}
use mathlib.Core.Logic.{◌⊎◌, inl, inr}
use mathlib.Core.Option.{Option, none, some}

pub data Result {ℓ κ} (A : Type ℓ) (E : Type κ) : Type (ℓ ⊔ κ) where
  ok : A → Result A E
  err : E → Result A E

infixl 5 ◌>>=◌ ◌>>◌
abbrev pub ◌>>=◌ {ℓ κ ι} :
    {A : Type ℓ} {B : Type κ} {E : Type ι} → Result A E → (A → Result B E) → Result B E
ok value >>= next = next value
err why >>= next = err why

abbrev pub ◌>>◌ {κ ι} : {B : Type κ} {E : Type ι} → Result (Unit {0}) E → Result B E → Result B E
first >> second = first >>= λ _. second

-- `Option::ok_or`.
abbrev pub ok_or {ℓ κ} : {A : Type ℓ} {E : Type κ} → Option A → E → Result A E
ok_or none e = err e
ok_or (some a) e = ok a

-- `Result::map_err`.
abbrev pub map_err {ℓ κ ι} :
    {A : Type ℓ} {E : Type κ} {F : Type ι} → (E → F) → Result A E → Result A F
map_err f (ok a) = ok a
map_err f (err e) = err (f e)

-- To split on a computed result and keep the equation.
pub Result-cases {ℓ κ} :
    {A : Type ℓ} {E : Type κ} (r : Result A E) → ((a : A) × (r ≡ ok a)) ⊎ ((e : E) × (r ≡ err e))
Result-cases (ok a) = inl (a, refl)
Result-cases (err e) = inr (e, refl)

-- Inversion of a bind that succeeded.
pub >>=-eq-ok {ℓ κ ι} :
    {A : Type ℓ} {B : Type κ} {E : Type ι} (first : Result A E) (next : A → Result B E) {out : B}
    → (first >>= next) ≡ ok out
    → (value : A) × (first ≡ ok value) × (next value ≡ ok out)
>>=-eq-ok (ok value) next h = (value, refl, h)
>>=-eq-ok (err why) next h = cc

pub ok_or-eq-ok {ℓ κ} :
    {A : Type ℓ} {E : Type κ} (o : Option A) (e : E) {out : A} → ok_or o e ≡ ok out → o ≡ some out
ok_or-eq-ok none e h = cc
ok_or-eq-ok (some a) e {out} h = let same : a ≡ out = cc (h) in ap some same
