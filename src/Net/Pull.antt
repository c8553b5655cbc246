-- ===== src/Net/Pull.antt =====
-- The pull of one file in crates/mascara-net/src/engine.rs. The destination directory is a map from
-- names to contents, none of them a symbolic link; a hasher is the bytes it was fed.
pub mod Loop
pub mod Steps
pub mod Landing
pub mod Outcomes
pub mod Search
pub mod Returns
pub mod Arrival
pub mod Complete
use mathlib.Core.Option
use mascara.Common.{
  ℕ, suc, zero, ◌+◌, ◌-◌, ◌*◌, min, Bool, true, false, not, ◌&&◌, ◌||◌, Option, none, some, List,
  [], ◌∷◌, ◌++◌, Result, ok, err, ◌>>=◌, ok_or, ltb, eqb, if◌then◌else◌, ◌==◌, list_eq, nat_eq,
  length, take, drop, is_none,
}
use mascara.Common.Text.{Text, Bytes, codes, before_last}
use mascara.Core.Ticket.{FileRef}
use mascara.Core.Registry.{Nonce}
use mascara.Net.Error.{
  NetError, protocol, io, local_io, refused, hash_mismatch, connection_lost, error_too_large,
  offset_beyond_size, inconsistent_response, cannot_append, cannot_create, cannot_write,
  cannot_flush, cannot_place, core, endpoint, connection, cancelled,
}
use mascara.Net.PathGuard.{safe_filename}
use mascara.Net.Response.{read_response}
use mascara.Net.Listener.Serve.{Request, file_op, max_request_frame}

abbrev pub Dir : Type 0
Dir = Text → Option Bytes

unfoldable pub set : Text → Option Bytes → Dir → Dir
set n b d m = if n == m then b else d m

-- `let _ = fs::remove_file(..)`, which may fail.
unfoldable pub remove_file : Bool → Text → Dir → Dir
remove_file can_remove n d = if can_remove then set n none d else d

-- What the environment decides about the local calls of one pull: `can_open_part` and `can_read_part`
-- of an earlier partial file, `can_open` of the one written to. `writes` has an entry for each
-- piece that is written. The last three are of the removals of the partial file: of one that is of no
-- use, after an error, and after a cancellation.
pub record Local : Type 0 where
  pub can_create_dir : Bool
  pub can_open_part : Bool
  pub can_read_part : Bool
  pub can_open : Bool
  pub can_flush : Bool
  pub can_place : Bool
  pub writes : List Bool
  pub can_remove_useless : Bool
  pub can_remove_failed : Bool
  pub can_remove_cancelled : Bool

-- What the peer sends: the frame before the body, and what each `read` of the body returns, up to
-- the end of the stream, which is an error if it broke. A piece fits the buffer of the loop.
pub record Incoming : Type 0 where
  pub head : Bytes
  pub reads : List Bytes
  pub broken : Bool

pub data PartialState : Type 0 where
  absent : PartialState
  resumable : ℕ → Bytes → PartialState
  complete : Bytes → PartialState

unfoldable pub classify : ℕ → Bytes → PartialState
classify size bytes =
    if length bytes == 0 || ltb size (length bytes)
    then absent
    else if length bytes == size
    then complete bytes
    else resumable (length bytes) bytes

-- `compute_partial_state`, and the directory after it.
unfoldable pub compute_partial_state : Local → Dir → Text → ℕ → PartialState × Dir
unfolding classify remove_file
compute_partial_state env d part size = elim (d part) [
  | none ↦ (absent, d)
  | some bytes ↦
      if not env.can_open_part
      then (absent, d)
      else (elim (if env.can_read_part then classify size bytes else absent) [
        | absent ↦ (absent, remove_file env.can_remove_useless part d)
        | resumable len hashed ↦ (resumable len hashed, d)
        | complete hashed ↦ (complete hashed, d)
      ])
]

abbrev pub chunk : ℕ
chunk = 262144

-- Whether the next piece can be written, and the later ones.
abbrev pub next_write : List Bool → Bool × List Bool
next_write [] = (true, [])
next_write (w ∷ ws) = (w, ws)

-- What the next `read` returns and the later ones: after the end every read returns no bytes, or an
-- error.
unfoldable pub next_read : List Bytes → Bool → Option (Bytes × List Bytes)
next_read [] broken = if broken then none else some ([], [])
next_read (piece ∷ reads) broken = some (piece, reads)

-- The loop of `receive_into_part`, and the bytes that it appended, on fuel for its turns.
unfoldable pub receive_loop :
    ℕ → ℕ → List Bytes → Bool → List Bool → Option (Result (Unit {0}) NetError × Bytes)
unfolding next_read
receive_loop zero fuel reads broken writes = some (ok tt, [])
receive_loop (suc left) zero reads broken writes = none
receive_loop (suc left) (suc fuel) reads broken writes = elim (next_read reads broken) [
  | none ↦ some (err io, [])
  | some (piece, later) ↦
      let got : Bytes = take (min (suc left) chunk) piece in
      let rest = receive_loop (suc left - length got) fuel later broken (next_write writes).1 in
      if length got == 0
      then some (err connection_lost, [])
      else if not (next_write writes).0
      then some (err (local_io cannot_write), [])
      else Option.map (λ r. (r.0, got ++ r.1)) rest
]

-- `Path::file_stem` and `Path::extension` of a plain name, in `name (n).ext`.
unfoldable pub numbered : (ℕ → Text) → Text → ℕ → Text
numbered decimal name n = elim (before_last b'.' name) [
  | none ↦ name ++ (codes " (" ++ (decimal n ++ codes ")"))
  | some [] ↦ name ++ (codes " (" ++ (decimal n ++ codes ")"))
  | some (c ∷ stem) ↦
      (c ∷ stem) ++ (codes " (" ++ (decimal n ++ (codes ")" ++ drop (length (c ∷ stem)) name)))
]

unfoldable pub first_free : (ℕ → Text) → ℕ → ℕ → Dir → Option Text
first_free candidate zero n d = none
first_free candidate (suc fuel) n d =
    let rest = first_free candidate fuel (suc n) d in
    if is_none (d (candidate n)) then some (candidate n) else rest

-- `unique_destination`, on fuel for the numbers it tries; `decimal` is the formatting of a number.
unfoldable pub unique_destination : (ℕ → Text) → ℕ → Dir → Text → Option Text
unfolding first_free numbered
unique_destination decimal fuel d name =
    if is_none (d name) then some name else first_free (numbered decimal name) fuel 2 d

-- `matches!(e, ConnectionLost(_) | Io(_))`
unfoldable pub keeps_partial : NetError → Bool
keeps_partial io = true
keeps_partial connection_lost = true
keeps_partial (core e) = false
keeps_partial (local_io e) = false
keeps_partial (protocol e) = false
keeps_partial endpoint = false
keeps_partial connection = false
keeps_partial (refused e) = false
keeps_partial hash_mismatch = false
keeps_partial cancelled = false

-- The last `match` of `pull_file_inner`.
unfoldable pub settle : Bool → Text → Result Text NetError × Dir → Result Text NetError × Dir
unfolding keeps_partial remove_file
settle can_remove part (ok final, d) = (ok final, d)
settle can_remove part (err e, d) =
    (err e, if keeps_partial e then d else remove_file can_remove part d)

-- The offset that is asked for and the bytes that were hashed before.
unfoldable pub resume_point : ℕ → ℕ → PartialState → ℕ × Bytes
resume_point requested size state = if ltb 0 requested then (requested, []) else elim state [
  | absent ↦ (0, [])
  | resumable len hashed ↦ (len, hashed)
  | complete hashed ↦ (size, hashed)
]

-- What is in the partial file before the loop: its content to append to, or nothing.
unfoldable pub open_part : Local → Dir → Text → ℕ → Result Bytes NetError
open_part env d part offset =
    if ltb 0 offset
    then (if env.can_open
        then ok_or (d part) (local_io cannot_append)
        else err (local_io cannot_append))
    else if env.can_open
    then ok []
    else err (local_io cannot_create)

-- SHA-256 and the formatting of a number are not part of the repository.
module _ (digest : Bytes → Bytes) (decimal : ℕ → Text) (fuel : ℕ) where
  -- The end of `receive_into_part`: the rename under a free name. `none` if the fuel runs out.
  unfoldable pub place : Local → Dir → Text → Text → Bytes → Option (Result Text NetError × Dir)
  unfolding unique_destination
  place env d part name whole = elim (unique_destination decimal fuel d name) [
    | none ↦ none
    | some final ↦
        if env.can_place
        then some (ok final, set part none (set final (some whole) d))
        else some (err (local_io cannot_place), d)
  ]

  -- After the loop: the flush, the hash and the rename.
  unfoldable pub finish :
      Local → Dir → Text → Text → Bytes → Bytes → Bytes → Option (Result Text NetError × Dir)
  unfolding place
  finish env d part name whole hashed sha256 =
      if not env.can_flush
      then some (err (local_io cannot_flush), d)
      else if not (digest hashed == sha256)
      then some (err hash_mismatch, d)
      else place env d part name whole

  -- What follows the loop, by how it ended.
  unfoldable pub after_loop :
      Local
      → Dir
      → Text
      → Text
      → Bytes
      → Bytes
      → Bytes
      → Result (Unit {0}) NetError × Bytes
      → Option (Result Text NetError × Dir)
  unfolding finish
  after_loop env d part name sha256 base prehash (err e, got) =
      some (err e, set part (some (base ++ got)) d)
  after_loop env d part name sha256 base prehash (ok _, got) =
      finish env (set part (some (base ++ got)) d) part name (base ++ got) (prehash ++ got) sha256

  -- `receive_into_part`; each turn of the loop reads a byte at least, or is the last.
  unfoldable pub receive_into_part :
      Local
      → Incoming
      → Dir
      → Text
      → Text
      → Bytes
      → ℕ
      → ℕ
      → Bytes
      → Option (Result Text NetError × Dir)
  unfolding open_part receive_loop after_loop
  receive_into_part env peer d part name sha256 offset remaining prehash =
      elim (open_part env d part offset) [
        | err e ↦ some (err e, d)
        | ok base ↦ elim (receive_loop remaining remaining peer.reads peer.broken env.writes) [
          | none ↦ none
          | some body ↦ after_loop env d part name sha256 base prehash body
        ]
      ]

  module _ (lossy : Bytes → Text) where
    -- The block `streamed` of `pull_file_inner`. The peer answers to the request.
    unfoldable pub streamed :
        Local
        → (Request → Incoming)
        → Nonce
        → Text
        → FileRef
        → Dir
        → Text
        → Text
        → ℕ × Bytes
        → Option (Result Text NetError × Dir)
    unfolding read_response receive_into_part
    streamed env peer nonce wire_path file_ref d part name point =
        let incoming = peer (record { v = 1; nonce = nonce; op = file_op wire_path point.0 }) in
        elim (read_response lossy incoming.head file_ref.size point.0) [
          | err e ↦ some (err e, d)
          | ok remaining ↦
              receive_into_part env incoming d part name file_ref.sha256 point.0 remaining point.1
        ]

    -- `pull_file_inner` once the name is accepted and the directory exists.
    unfoldable pub pull_named :
        Local
        → (Request → Incoming)
        → Nonce
        → Text
        → FileRef
        → ℕ
        → Dir
        → Text
        → Option (Result Text NetError × Dir)
    unfolding streamed settle resume_point compute_partial_state
    pull_named env peer nonce wire_path file_ref requested d name =
        let part : Text = name ++ codes ".part" in
        let found : PartialState × Dir =
          if ltb 0 requested then (absent, d) else compute_partial_state env d part file_ref.size in
        Option.map (settle env.can_remove_failed part) (
          streamed env peer nonce wire_path file_ref found.1 part name
            (resume_point requested file_ref.size found.0))

    -- `pull_file_inner`
    unfoldable pub pull_file_inner :
        Local
        → (Request → Incoming)
        → Nonce
        → Text
        → FileRef
        → ℕ
        → Dir
        → Option (Result Text NetError × Dir)
    unfolding pull_named
    pull_file_inner env peer nonce wire_path file_ref requested d =
        elim (safe_filename file_ref.name) [
          | err e ↦ some (err e, d)
          | ok name ↦
              if env.can_create_dir
              then pull_named env peer nonce wire_path file_ref requested d name
              else some (err io, d)
        ]

    -- `pull_file`
    unfoldable pub pull_file :
        Local
        → (Request → Incoming)
        → Nonce
        → FileRef
        → ℕ
        → Dir
        → Option (Result Text NetError × Dir)
    unfolding pull_file_inner
    pull_file env peer nonce file_ref requested d =
        pull_file_inner env peer nonce file_ref.name file_ref requested d
