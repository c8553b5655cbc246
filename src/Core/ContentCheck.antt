-- ===== src/Core/ContentCheck.antt =====
-- crates/mascara-core/src/content_check.rs: the declared name and type of a file against the type that
-- the `infer` crate, which is a parameter, recognises in its bytes.
pub mod Policies
use mathlib.Core.Option
use mascara.Common.{
  ℕ, ◌+◌, Bool, true, false, not, ◌&&◌, Option, none, some, List, [], ◌∷◌, Result, ok, err, leb,
  eqb, if◌then◌else◌, ◌==◌, list_eq, nat_eq, map, is_none_or,
}
use mascara.Common.Text.{Text, Bytes}
use mascara.Core.Error.{CoreError, content, type_mismatch}

-- An extension without its dot, and a mime type.
pub record Sniffed : Type 0 where
  pub extension : Text
  pub mime_type : Text

pub data Verdict : Type 0 where
  match : Verdict
  mismatch : (declared_ext declared_mime sniffed_ext sniffed_mime : Option Text) → Verdict
  unverifiable : Verdict

pub data Policy : Type 0 where
  warn_and_acknowledge hard_refuse : Policy

abbrev lower : ℕ → ℕ
lower c = if leb b'A' c && leb c b'Z' then c + 32 else c

-- `str::to_ascii_lowercase`
unfoldable pub to_ascii_lowercase : Text → Text
to_ascii_lowercase s = map lower s

-- `str::eq_ignore_ascii_case`
unfoldable pub eq_ignore_ascii_case : Text → Text → Bool
unfolding to_ascii_lowercase
eq_ignore_ascii_case s t = to_ascii_lowercase s == to_ascii_lowercase t

-- What stands after the last `c`.
after_last : ℕ → Text → Option Text
after_last c [] = none
after_last c (d ∷ s) = elim (after_last c s) [
  | some rest ↦ some rest
  | none ↦ if eqb d c then some s else none
]

-- `ext_of`
unfoldable pub ext_of : Text → Option Text
unfolding after_last to_ascii_lowercase
ext_of name = elim (after_last b'.' name) [
  | none ↦ none
  | some ext ↦ if ext == [] then none else some (to_ascii_lowercase ext)
]

module _ (infer_get : Bytes → Option Sniffed) where
  -- `ext_agrees && mime_agrees`
  unfoldable pub agrees : Text → Option Text → Sniffed → Bool
  unfolding eq_ignore_ascii_case ext_of
  agrees name mime sniffed =
      is_none_or (ext_of name) (λ e. eq_ignore_ascii_case e sniffed.extension)
      && is_none_or mime (λ m. eq_ignore_ascii_case m sniffed.mime_type)

  unfoldable pub verdict_of : Text → Option Text → Bytes → Verdict
  unfolding agrees ext_of
  verdict_of name mime bytes = elim (infer_get bytes) [
    | none ↦ unverifiable
    | some sniffed ↦
        if agrees name mime sniffed
        then match
        else mismatch (ext_of name) mime (some sniffed.extension) (some sniffed.mime_type)
  ]

  unfoldable pub under_policy : Policy → Verdict → Result Verdict CoreError
  under_policy hard_refuse (mismatch de dm se sm) = err (content type_mismatch)
  under_policy hard_refuse match = ok match
  under_policy hard_refuse unverifiable = ok unverifiable
  under_policy warn_and_acknowledge v = ok v

  -- `check`
  unfoldable pub check : Text → Option Text → Bytes → Policy → Result Verdict CoreError
  unfolding verdict_of under_policy
  check name mime bytes policy = under_policy policy (verdict_of name mime bytes)
