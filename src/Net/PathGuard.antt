-- ===== src/Net/PathGuard.antt =====
-- The path guards of crates/mascara-net/src/engine.rs, with `Path::components` of std on Unix.
pub mod Parts
pub mod Containment
pub mod Agreement
use mascara.Common.{
  ℕ, Bool, true, false, ◌&&◌, ◌||◌, Option, none, some, List, [], ◌∷◌, Result, ok, err, eqb,
  if◌then◌else◌, ◌==◌, list_eq, nat_eq, any, ◌>>=◌, ◌>>◌,
}
use mascara.Common.Text.{
  Text, codes, contains, ends_with, split, before_last, is_ascii_alphabetic, to_ascii_uppercase,
}
use mascara.Net.Error.{
  NetError, protocol, PathFault, unsafe_name, empty_name, relative_reference, separator, rooted,
  empty_component, drive_letter, colon, reserved_name, trailing_dot_or_space, not_plain,
}

-- `has_drive_letter`
unfoldable pub has_drive_letter : Text → Bool
has_drive_letter [] = false
has_drive_letter (a ∷ []) = false
has_drive_letter (a ∷ b ∷ rest) = eqb b b':' && is_ascii_alphabetic a

abbrev pub reserved_names : List Text
reserved_names =
    codes "CON"
    ∷ codes "PRN"
    ∷ codes "AUX"
    ∷ codes "NUL"
    ∷ codes "COM1"
    ∷ codes "COM2"
    ∷ codes "COM3"
    ∷ codes "COM4"
    ∷ codes "COM5"
    ∷ codes "COM6"
    ∷ codes "COM7"
    ∷ codes "COM8"
    ∷ codes "COM9"
    ∷ codes "LPT1"
    ∷ codes "LPT2"
    ∷ codes "LPT3"
    ∷ codes "LPT4"
    ∷ codes "LPT5"
    ∷ codes "LPT6"
    ∷ codes "LPT7"
    ∷ codes "LPT8"
    ∷ codes "LPT9"
    ∷ []

abbrev pub stem_of : Text → Text
stem_of name = elim (before_last b'.' name) [ some stem ↦ stem | none ↦ name ]

-- `is_windows_reserved_name`
unfoldable pub is_windows_reserved_name : Text → Bool
is_windows_reserved_name name = any (λ r. r == to_ascii_uppercase (stem_of name)) reserved_names

-- `std::path::Component` on Unix, where there is no prefix.
pub data Component : Type 0 where
  root_dir cur_dir parent_dir : Component
  normal : Text → Component

abbrev pub is_slash : ℕ → Bool
is_slash c = eqb c b'/'

-- A part between two slashes; an empty one and a dot are skipped.
abbrev pub onto_components : Text → List Component → List Component
onto_components part rest =
    if part == []
    then rest
    else if part == codes "."
    then rest
    else if part == codes ".."
    then parent_dir ∷ rest
    else normal part ∷ rest

pub components_of : List Text → List Component
components_of [] = []
components_of (part ∷ parts) = onto_components part (components_of parts)

-- A leading dot is kept.
leading : List Text → List Component
leading [] = []
leading (part ∷ parts) =
    if part == codes "." then cur_dir ∷ components_of parts else components_of (part ∷ parts)

-- `Path::components`
unfoldable pub components : Text → List Component
unfolding components_of leading
components [] = []
components (c ∷ s) =
    if is_slash c
    then root_dir ∷ components_of (split is_slash s)
    else leading (split is_slash (c ∷ s))

abbrev refuse {ℓ} : {A : Type ℓ} → PathFault → Result A NetError
refuse why = err (protocol (unsafe_name why))

-- The last check of `safe_filename`.
single_component : Text → List Component → Result Text NetError
single_component name (normal only ∷ []) = if only == name then ok name else refuse not_plain
single_component name comps = refuse not_plain

-- `safe_filename`
unfoldable pub safe_filename : Text → Result Text NetError
unfolding single_component
safe_filename name =
    if name == []
    then refuse empty_name
    else if name == codes "." || name == codes ".."
    then refuse relative_reference
    else if contains b'/' name || contains b'\\' name
    then refuse separator
    else if has_drive_letter name
    then refuse drive_letter
    else if contains b':' name
    then refuse colon
    else if is_windows_reserved_name name
    then refuse reserved_name
    else if ends_with b'.' name || ends_with b' ' name
    then refuse trailing_dot_or_space
    else single_component name (components name)

-- The body of the loop over the segments in `safe_rel_path`.
unfoldable pub check_segment : Text → Result (Unit {0}) NetError
check_segment seg =
    if seg == []
    then refuse empty_component
    else if seg == codes "." || seg == codes ".."
    then refuse relative_reference
    else if has_drive_letter seg
    then refuse drive_letter
    else if contains b':' seg
    then refuse colon
    else if is_windows_reserved_name seg
    then refuse reserved_name
    else if ends_with b'.' seg || ends_with b' ' seg
    then refuse trailing_dot_or_space
    else ok tt

unfoldable pub check_segments : List Text → Result (Unit {0}) NetError
check_segments [] = ok tt
check_segments (seg ∷ segs) = check_segment seg >>= λ _. check_segments segs

all_normal : Text → List Component → Result Text NetError
all_normal rel [] = ok rel
all_normal rel (normal _ ∷ comps) = all_normal rel comps
all_normal rel (root_dir ∷ comps) = refuse not_plain
all_normal rel (cur_dir ∷ comps) = refuse not_plain
all_normal rel (parent_dir ∷ comps) = refuse not_plain

abbrev pub starts_with_slash : Text → Bool
starts_with_slash [] = false
starts_with_slash (c ∷ s) = is_slash c

-- `safe_rel_path`
unfoldable pub safe_rel_path : Text → Result Text NetError
unfolding all_normal
safe_rel_path rel =
    if rel == []
    then refuse empty_name
    else if starts_with_slash rel
    then refuse rooted
    else if contains b'\\' rel
    then refuse separator
    else check_segments (split is_slash rel) >>= λ _. all_normal rel (components rel)
