-- ===== src/Examples/Pulling.antt =====
-- Tests of the pull of a file, at a concrete directory and peer.
use mascara.Common.{
  ℕ, ◌≡◌, ◌⊎◌, inl, inr, refl, true, false, none, some, [], ◌∷◌, ◌++◌, ok, err, arith, ◌==◌,
  list_eq, nat_eq, list_beq, any, Bool-cases,
}
use mascara.Common.Text.{
  Text, Bytes, codes, contains, split, ends_with, before_last, to_ascii_uppercase,
}
use mascara.Core.Ticket.{FileRef}
use mascara.Net.Error.{io}
use mascara.Net.PathGuard.{safe_filename, components, has_drive_letter, is_windows_reserved_name}
use mascara.Net.Listener.Serve.{Request}
use mascara.Net.Pull.{
  Dir, set, Local, Incoming, compute_partial_state, classify, receive_loop, next_read, after_loop,
  remove_file, unique_destination, first_free, keeps_partial, settle, resume_point, open_part,
  place, finish, receive_into_part, streamed, pull_named, pull_file_inner, pull_file,
}
use mascara.Net.Response.{read_response}
use mascara.Net.Pull.Landing.{IsLanded, pull_file-IsLanded}
use mascara.Net.Pull.Outcomes.{IsKept, pull_file-failed}
use mascara.Net.Pull.Returns.{Returns, pull_file-Returns}

abbrev pub same : Bytes → Bytes
same b = b

-- A number is written as one code, so different numbers are written differently.
abbrev pub digit : ℕ → Text
digit n = n ∷ []

digit_injective : (i j : ℕ) → digit i ≡ digit j → i ≡ j
digit_injective i j h = cc

abbrev whole : Bytes
whole = 5 ∷ 6 ∷ 7 ∷ 8 ∷ []

abbrev pub wanted : FileRef
wanted = record { name = codes "a.txt"; size = 4; sha256 = whole; md5 = []; mime = none }

abbrev pub part : Text
part = codes "a.txt.part"

abbrev pub fine : Local
fine = record {
  can_create_dir = true;
  can_open_part = true;
  can_read_part = true;
  can_open = true;
  can_flush = true;
  can_place = true;
  writes = [];
  can_remove_useless = true;
  can_remove_failed = true;
  can_remove_cancelled = true;
}

-- The first half is there from an earlier pull.
abbrev pub half : Dir
half = set part (some (5 ∷ 6 ∷ [])) (λ m. none)

abbrev pub honest : Request → Incoming
honest r = record {
  head = 0 ∷ 2 ∷ 0 ∷ 0 ∷ 0 ∷ 0 ∷ 0 ∷ 0 ∷ 0 ∷ [];
  reads = (7 ∷ []) ∷ (8 ∷ []) ∷ [];
  broken = false;
}

abbrev pub breaking : Request → Incoming
breaking r = record {
  head = 0 ∷ 2 ∷ 0 ∷ 0 ∷ 0 ∷ 0 ∷ 0 ∷ 0 ∷ 0 ∷ [];
  reads = (7 ∷ []) ∷ [];
  broken = true;
}

abbrev pub landed : Dir
landed = set part none (set (codes "a.txt") (some whole) (set part (some whole) half))

pub pulled :
    pull_file same digit 3 same fine honest [] wanted 0 half ≡ some (ok (codes "a.txt"), landed)
unfolding pull_file pull_file_inner safe_filename components has_drive_letter
    is_windows_reserved_name contains split ends_with before_last to_ascii_uppercase list_beq
    pull_named compute_partial_state classify resume_point streamed read_response receive_into_part
    open_part receive_loop next_read after_loop remove_file finish place unique_destination
    first_free set settle
pulled = refl

pull_file-IsLanded_example :
    (name : Text) × (safe_filename wanted.name ≡ ok name)
    × IsLanded same digit 3 same half wanted name (codes "a.txt") landed
pull_file-IsLanded_example =
    pull_file-IsLanded same digit 3 same fine honest [] wanted half (codes "a.txt") landed pulled

abbrev pub longer : Dir
longer = set part (some (5 ∷ 6 ∷ 7 ∷ [])) half

pub interrupted : pull_file same digit 3 same fine breaking [] wanted 0 half ≡ some (err io, longer)
unfolding pull_file pull_file_inner safe_filename components has_drive_letter
    is_windows_reserved_name contains split ends_with before_last to_ascii_uppercase list_beq
    pull_named compute_partial_state classify resume_point streamed read_response receive_into_part
    open_part receive_loop next_read after_loop remove_file set settle keeps_partial
interrupted = refl

pull_file-failed_example :
    ((longer ≡ half) × (safe_filename wanted.name ≡ err io))
    ⊎ ((name : Text) × (safe_filename wanted.name ≡ ok name)
        × IsKept (name ++ codes ".part") half longer
        × ((keeps_partial io ≡ false)
            → fine.can_remove_failed ≡ true
            → longer (name ++ codes ".part") ≡ none))
pull_file-failed_example =
    pull_file-failed same digit 3 same fine breaking [] wanted 0 half io longer interrupted

-- The partial file is the only one.
listed : (m : Text) → any (λ n. n == m) (part ∷ []) ≡ false → half m ≡ none
unfolding set
listed m h = elim (Bool-cases (part == m)) [ inl t ↦ cc (rw t at h) | inr f ↦ rw f refl ]

pull_file-Returns_example : Returns (pull_file same digit 3 same fine honest [] wanted 0 half)
pull_file-Returns_example =
    pull_file-Returns same digit 3 same fine honest [] wanted 0 half (part ∷ []) digit_injective
      listed (ground arith)
