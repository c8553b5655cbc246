-- ===== src/Common/Text.antt =====
-- Texts as lists of code points, and byte strings. Both are compared item by item.
use Prim.Native.Nat.{ℕ, ◌-◌}
use Prim.Native.Char.{code}
use Prim.Native.String.{String}
use mathlib.Core.Bool.{Bool, true, false, ◌&&◌, ◌||◌}
use mathlib.Core.Option.{Option, none, some}
use mathlib.Core.List.{List, [], ◌∷◌, ◌++◌, reverse, reverse-cons, reverse-reverse}
use mathlib.Core.Path.{◌≡◌, refl, sym, subst, ◌∙◌, ap}
use native.Mathlib.Omega.{arith}
use mascara.Common.Tests.{eqb, leb, if◌then◌else◌}

abbrev pub Text : Type 0
Text = List ℕ

abbrev pub Bytes : Type 0
Bytes = List ℕ

-- The code points of a text literal.
abbrev pub codes : String → Text
codes String.[] = []
codes (String.◌∷◌ c s) = code c ∷ codes s

-- `str::starts_with`.
unfoldable pub starts_with : Text → Text → Bool
starts_with s [] = true
starts_with [] (c ∷ prefix) = false
starts_with (d ∷ s) (c ∷ prefix) = eqb d c && starts_with s prefix

-- `char::is_whitespace`: the code points with the property White_Space.
unfoldable pub is_whitespace : ℕ → Bool
is_whitespace c =
    leb 9 c && leb c 13
    || eqb c 32
    || eqb c 0x85
    || eqb c 0xa0
    || eqb c 0x1680
    || leb 0x2000 c && leb c 0x200a
    || eqb c 0x2028
    || eqb c 0x2029
    || eqb c 0x202f
    || eqb c 0x205f
    || eqb c 0x3000

trim_start : Text → Text
trim_start [] = []
trim_start (c ∷ s) = if is_whitespace c then trim_start s else c ∷ s

-- `str::trim`.
unfoldable pub trim : Text → Text
unfolding trim_start is_whitespace
trim s = reverse (trim_start (reverse (trim_start s)))

-- `str::contains(char)`.
unfoldable pub contains : ℕ → Text → Bool
contains c [] = false
contains c (d ∷ s) = eqb d c || contains c s

-- `str::ends_with(char)`.
unfoldable pub ends_with : ℕ → Text → Bool
ends_with c [] = false
ends_with c (d ∷ []) = eqb d c
ends_with c (d ∷ e ∷ s) = ends_with c (e ∷ s)

abbrev pub onto_first : ℕ → List Text → List Text
onto_first c [] = (c ∷ []) ∷ []
onto_first c (s ∷ rest) = (c ∷ s) ∷ rest

-- `str::split`, by a test on the characters: never empty, and an empty text has one empty part.
unfoldable pub split : (ℕ → Bool) → Text → List Text
split at [] = [] ∷ []
split at (c ∷ s) = let rest = split at s in if at c then [] ∷ rest else onto_first c rest

-- `str::rsplit_once`: what stands before the last such character, if there is one.
unfoldable pub before_last : ℕ → Text → Option Text
before_last c [] = none
before_last c (d ∷ s) = elim (before_last c s) [
  | some stem ↦ some (d ∷ stem)
  | none ↦ if eqb d c then some [] else none
]

abbrev pub is_ascii_alphabetic : ℕ → Bool
is_ascii_alphabetic c = leb b'A' c && leb c b'Z' || leb b'a' c && leb c b'z'

-- `str::to_ascii_uppercase`.
unfoldable pub to_ascii_uppercase : Text → Text
to_ascii_uppercase [] = []
to_ascii_uppercase (c ∷ s) = (if leb b'a' c && leb c b'z' then c - 32 else c) ∷ to_ascii_uppercase s

-- `str::strip_prefix`.
unfoldable pub strip_prefix : Text → Text → Option Text
strip_prefix s [] = some s
strip_prefix [] (c ∷ prefix) = none
strip_prefix (d ∷ s) (c ∷ prefix) =
    let rest = strip_prefix s prefix in if eqb d c then rest else none

pub strip_prefix-append : (prefix s : Text) → strip_prefix (prefix ++ s) prefix ≡ some s
unfolding strip_prefix
strip_prefix-append [] s = refl
strip_prefix-append (c ∷ prefix) s = ground (arith, strip_prefix-append prefix s)

-- A text with no white space.
abbrev pub IsSolid : Text → Type 0
IsSolid [] = Unit {0}
IsSolid (c ∷ s) = (is_whitespace c ≡ false) × IsSolid s

pub append-IsSolid : (s t : Text) → IsSolid s → IsSolid t → IsSolid (s ++ t)
append-IsSolid [] t h k = k
append-IsSolid (c ∷ s) t h k = (h.0, append-IsSolid s t h.1 k)

trim_start-IsSolid : (s : Text) → IsSolid s → trim_start s ≡ s
unfolding trim_start
trim_start-IsSolid [] h = refl
trim_start-IsSolid (c ∷ s) h = rw h.0 refl

reverse-IsSolid : (s : Text) → IsSolid s → IsSolid (reverse s)
reverse-IsSolid [] h = h
reverse-IsSolid (c ∷ s) h =
    subst IsSolid (sym (reverse-cons c s))
      (append-IsSolid (reverse s) (c ∷ []) (reverse-IsSolid s h.1) (h.0, tt))

pub trim-IsSolid : (s : Text) → IsSolid s → trim s ≡ s
unfolding trim
trim-IsSolid s h =
    ap (λ t. reverse (trim_start (reverse t))) (trim_start-IsSolid s h)
    ∙ ap reverse (trim_start-IsSolid (reverse s) (reverse-IsSolid s h))
    ∙ reverse-reverse s
