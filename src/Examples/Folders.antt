-- ===== src/Examples/Folders.antt =====
-- Tests of the pull of a folder, at a concrete manifest, destination and peer.
use mathlib.Core.List.Memᴰ
use mathlib.Core.List.Memᴰ.{head, tail}
use mascara.Common.{
  ℕ, ◌≡◌, refl, true, false, none, some, List, [], ◌∷◌, Result, ok, err, arith, list_eq, nat_eq,
  list_beq,
}
use mascara.Common.Text.{
  Text, Bytes, codes, contains, split, ends_with, before_last, to_ascii_uppercase,
}
use mascara.Core.Manifest.{Manifest, ManifestEntry}
use mascara.Net.Error.{
  NetError, protocol, unsafe_name, relative_reference, cancelled, outside_destination,
}
use mascara.Net.PathGuard.{
  safe_filename, safe_rel_path, check_segment, check_segments, components, has_drive_letter,
  is_windows_reserved_name,
}
use mascara.Net.Listener.Serve.{Request}
use mascara.Net.Pull.{
  Dir, set, Local, Incoming, compute_partial_state, classify, receive_loop, next_read, after_loop,
  remove_file, unique_destination, first_free, settle, resume_point, open_part, place, finish,
  receive_into_part, streamed, pull_named, pull_file_inner,
}
use mascara.Net.Response.{read_response}
use mascara.Net.Folder.{
  Parts, Tree, set_dir, Destination, Turn, parent, beneath, file_name, prepare_entry_dest, relocate,
  relocated, pull_entry, pull_next, pull_entries, pull_folder, dirs_made,
}
use mascara.Net.Folder.Entries.{home}
use mascara.Net.Folder.Trace.{Done, HasNoLinks, IsRun, pull_folder-IsRun}
use mascara.Net.Folder.Kept.{IsApart, IsThere, pull_folder_contained, pull_folder-IsThere}
use mascara.Net.Folder.Returns.{pull_folder-Returns}

abbrev copy : Bytes → Bytes
copy b = b

abbrev pub digit : ℕ → Text
digit n = n ∷ []

digit_injective : (i j : ℕ) → digit i ≡ digit j → i ≡ j
digit_injective i j h = cc

abbrev pub fine : Local
fine = record {
  can_create_dir = true;
  can_open_part = true;
  can_read_part = true;
  can_open = true;
  can_flush = true;
  can_place = true;
  writes = [];
  can_remove_useless = true;
  can_remove_failed = true;
  can_remove_cancelled = true;
}

abbrev honest : Request → Incoming
honest r = record {
  head = 0 ∷ 2 ∷ 0 ∷ 0 ∷ 0 ∷ 0 ∷ 0 ∷ 0 ∷ 0 ∷ [];
  reads = (7 ∷ []) ∷ (8 ∷ []) ∷ [];
  broken = false;
}

abbrev turns : ℕ → Turn
turns i = record {
  local = fine;
  opened = ok honest;
  can_rename = true;
  made = (codes "root" ∷ codes "s" ∷ []) ∷ [];
  through_link = λ t. (err cancelled, t);
}

-- The destination stands at `root`, and no link leads elsewhere.
abbrev pub plain_root : Destination
plain_root = record {
  can_create = λ p. true;
  can_resolve = λ p. true;
  resolve = λ p. codes "root" ∷ p;
  is_symlink = λ p. false;
  can_remove = λ p m. true;
}

abbrev good_entry : ManifestEntry
good_entry = record { rel_path = codes "s/a"; size = 2; sha256 = 7 ∷ 8 ∷ []; md5 = []; mode = 420 }

abbrev climbing_entry : ManifestEntry
climbing_entry = record {
  rel_path = codes "../b";
  size = 2;
  sha256 = 7 ∷ 8 ∷ [];
  md5 = [];
  mode = 420;
}

abbrev pub two_entries : Manifest
two_entries = record { v = 1; entries = good_entry ∷ climbing_entry ∷ [] }

abbrev pub empty : Tree
empty q m = none

abbrev part : Text
part = codes "a.part"

abbrev subdir : Dir
subdir =
    set part none (set (codes "a") (some (7 ∷ 8 ∷ [])) (set part (some (7 ∷ 8 ∷ [])) (λ m. none)))

abbrev after : Tree
after = set_dir (codes "root" ∷ codes "s" ∷ []) subdir empty

abbrev done : Done
done = (good_entry, codes "s" ∷ codes "a" ∷ []) ∷ []

abbrev refusal : Result (List Parts) NetError
refusal = err (protocol (unsafe_name relative_reference))

abbrev made : List Parts
made = (codes "root" ∷ codes "s" ∷ []) ∷ []

no_links : HasNoLinks plain_root two_entries.entries
no_links e m = refl

folder_pulled :
    pull_folder copy digit 7 copy plain_root [] turns two_entries empty
    ≡ some (refusal, done, after, made)
unfolding pull_folder pull_entries dirs_made pull_next pull_entry prepare_entry_dest file_name
    relocated relocate parent beneath safe_rel_path check_segment check_segments pull_file_inner
    safe_filename components has_drive_letter is_windows_reserved_name contains split ends_with
    before_last to_ascii_uppercase list_beq pull_named compute_partial_state classify resume_point
    streamed read_response receive_into_part open_part receive_loop next_read after_loop remove_file
    finish place unique_destination first_free set settle set_dir
folder_pulled = refl

pull_folder-IsRun_example :
    IsRun plain_root copy turns two_entries.entries empty refusal done after made
pull_folder-IsRun_example =
    pull_folder-IsRun copy digit 7 copy plain_root [] turns two_entries empty refusal done after
      made no_links folder_pulled

-- The directory `s` of the destination is a link to `etc`.
abbrev linked_root : Destination
linked_root = record {
  can_create = λ p. true;
  can_resolve = λ p. true;
  resolve = λ p. elim p [ [] ↦ codes "root" ∷ [] | s ∷ _ ↦ codes "etc" ∷ [] ];
  is_symlink = λ p. false;
  can_remove = λ p m. true;
}

abbrev led_out : Result (List Parts) NetError
led_out = err (protocol outside_destination)

pulled_outside :
    pull_folder copy digit 7 copy linked_root [] turns two_entries empty
    ≡ some (led_out, [], empty, made)
unfolding pull_folder pull_entries dirs_made pull_next prepare_entry_dest parent beneath
    safe_rel_path check_segment check_segments components has_drive_letter is_windows_reserved_name
    contains split ends_with before_last to_ascii_uppercase list_beq
pulled_outside = refl

outside : beneath (codes "etc" ∷ []) (linked_root.resolve []) ≡ false
unfolding beneath list_beq
outside = refl

pull_folder_contained_example : empty (codes "etc" ∷ []) ≡ empty (codes "etc" ∷ [])
pull_folder_contained_example =
    pull_folder_contained copy digit 7 copy linked_root [] turns two_entries empty led_out [] empty
      made (codes "etc" ∷ []) (λ e m. refl) pulled_outside outside

-- Both partial files have other names than the file that landed.
apart : IsApart plain_root (home plain_root good_entry) (codes "a") two_entries.entries
unfolding split parent
apart e (head same) here n = cc (n)
apart e (tail (head same)) here n = cc (n)
apart e (tail (tail m)) here n = absurd (Memᴰ.not-nil m)

pull_folder-IsThere_example : IsThere plain_root copy after good_entry (codes "s" ∷ codes "a" ∷ [])
pull_folder-IsThere_example =
    pull_folder-IsThere copy digit 7 copy plain_root [] turns two_entries empty refusal done after
      made good_entry (codes "s" ∷ codes "a" ∷ []) no_links folder_pulled (head refl) apart

pull_folder-Returns_example :
    (r : Result (List Parts) NetError × Done × Tree × List Parts) × (pull_folder copy digit 7 copy
        plain_root [] turns two_entries empty
      ≡ some r)
pull_folder-Returns_example =
    pull_folder-Returns copy digit 7 copy plain_root [] turns two_entries empty [] digit_injective
      (λ q m out. refl) no_links (ground arith)
