-- ===== src/Examples/Paths.antt =====
-- Tests of the path guards and of the writes to files, at concrete names.
use mascara.Common.{
  ℕ, ◌≡◌, ◌↔◌, refl, sym, false, ◌⊎◌, Option, none, some, List, [], ◌∷◌, ◌++◌, ok, take, list_beq,
  All,
}
use mascara.Common.Text.{
  Text, Bytes, codes, contains, split, ends_with, before_last, to_ascii_uppercase,
}
use mascara.Core.Disk.{FilePath, Fs, run_calls, write_calls}
use mascara.Core.Disk.Atomic.{atomic_write_untorn}
use mascara.Core.Error.{registry}
use mascara.Core.Registry.{IssuedRecord, IssuedTickets, no_tickets, registry_version}
use mascara.Core.Store.File.{SteadyDisk, steady_store, file_store-IsFaithful}
use mascara.Core.Store.{Backend}
use mascara.Core.Store.Laws.{IsFaithful}
use mascara.Net.PathGuard.{
  safe_rel_path, safe_filename, check_segment, check_segments, components, has_drive_letter,
  is_windows_reserved_name, is_slash,
}
use mascara.Net.PathGuard.Parts.{IsPlain}
use mascara.Net.PathGuard.Containment.{lands, safe_rel_path_contained}
use mascara.Net.PathGuard.Agreement.{safe_filename_iff}

abbrev photo : Text
photo = codes "pics/a.png"

photo_accepted : safe_rel_path photo ≡ ok photo
unfolding safe_rel_path check_segments check_segment components has_drive_letter
    is_windows_reserved_name contains split ends_with before_last to_ascii_uppercase list_beq
photo_accepted = refl

-- A name that the guard is meant to refuse: a device with two extensions.
device_accepted : safe_filename (codes "NUL.tar.gz") ≡ ok (codes "NUL.tar.gz")
unfolding safe_filename components has_drive_letter is_windows_reserved_name contains split
    ends_with before_last to_ascii_uppercase list_beq
device_accepted = refl

safe_rel_path_contained_example :
    (photo ≡ photo)
    × All IsPlain (split is_slash photo)
    × (lands (codes "dl" ∷ []) photo ≡ (codes "dl" ∷ []) ++ split is_slash photo)
safe_rel_path_contained_example =
    safe_rel_path_contained photo photo (codes "dl" ∷ []) photo_accepted

safe_filename_iff_example :
    (safe_filename photo ≡ ok photo)
    ↔ ((safe_rel_path photo ≡ ok photo) × (contains b'/' photo ≡ false))
safe_filename_iff_example = safe_filename_iff photo

abbrev issued_json : FilePath
issued_json = record { dir = codes "home/tickets"; name = codes "issued.json" }

abbrev old_files : Fs
old_files = λ p. some (1 ∷ 2 ∷ [])

abbrev faults : List (Option ℕ)
faults = none ∷ some 1 ∷ []

atomic_write_untorn_example :
    let seen =
      (run_calls (take 2 (write_calls issued_json (codes "ab") (3 ∷ 4 ∷ []))) faults old_files).1
        issued_json in
    (seen ≡ old_files issued_json) ⊎ (seen ≡ some (3 ∷ 4 ∷ []))
atomic_write_untorn_example =
    atomic_write_untorn issued_json (3 ∷ 4 ∷ []) (codes "ab") faults old_files 2

-- A codec of the registries without tickets.
abbrev write_version : IssuedTickets → Option Bytes
write_version t = elim t.tickets [ [] ↦ some (t.v ∷ []) | _ ∷ _ ↦ none ]

abbrev read_version : Bytes → Option IssuedTickets
read_version [] = none
read_version (v ∷ rest) = some (record { v = v; tickets = [] })

version_read :
    (v : ℕ) (rs : List IssuedRecord) (bytes : Bytes)
    → write_version (record { v = v; tickets = rs }) ≡ some bytes
    → read_version bytes ≡ some (record { v = v; tickets = rs })
version_read v [] bytes h = let same : v ∷ [] ≡ bytes = cc in rw (sym same) refl
version_read v (r ∷ rs) bytes h = cc

abbrev version_store : Backend IssuedTickets (
    SteadyDisk issued_json no_tickets
      (λ t. t.v)
      registry_version
      registry
      write_version
      read_version)
version_store =
    steady_store issued_json no_tickets (λ t. t.v) registry_version registry write_version
      read_version

file_store-IsFaithful_example : IsFaithful (λ s. s.v ≡ registry_version) version_store
file_store-IsFaithful_example =
    file_store-IsFaithful issued_json no_tickets (λ t. t.v) registry_version registry write_version
      read_version (λ s bytes h. version_read s.v s.tickets bytes h) refl
