-- ===== src/Core/Store/File.antt =====
-- `FileStore` of registry.rs and of history.rs: one versioned JSON file, written atomically.
use mascara.Common.{
  ℕ, ◌+◌, ◌≡◌, ◌≢◌, ◌⊎◌, ap, ◌∙◌, Bool, true, inl, inr, Option, none, some, List, Result, ok, err,
  arith, if◌then◌else◌, eqb, Option-cases, not,
}
use mascara.Common.Text.{Text, Bytes}
use mascara.Core.Error.{CoreError, io, json, reading, creating_dir, Reason, unsupported_version}
use mascara.Core.Disk.{FilePath, Fs, atomic_write}
use mascara.Core.Disk.Atomic.{atomic_write_result}
use mascara.Core.Store.{Backend}
use mascara.Core.Store.Laws.{IsFaithful}

-- What the environment decides about the calls made at one moment. Without `can_stat` the file looks
-- absent.
pub record Env : Type 0 where
  pub can_stat : Bool
  pub can_read : Bool
  pub can_create_dir : Bool
  pub weather : List (Option ℕ)
  pub suffix : Text

-- The file system, and the environment at each moment; each `store` takes a moment.
pub record Disk : Type 0 where
  pub fs : Fs
  pub moment : ℕ
  pub env : ℕ → Env

-- The codec is serde's.
module _ {S : Type 0} (path : FilePath) (initial : S) (version : S → ℕ) (current : ℕ)
    (refusal : Reason → CoreError) (to_json : S → Option Bytes) (from_json : Bytes → Option S) where
  parse_file : Option Bytes → Result S CoreError
  parse_file none = err json
  parse_file (some raw) = elim (from_json raw) [
    | none ↦ err json
    | some parsed ↦
        if not (eqb (version parsed) current)
        then err (refusal (unsupported_version (version parsed)))
        else ok parsed
  ]

  -- `FileStore::load`
  unfoldable pub load_file : Disk → Result S CoreError
  unfolding parse_file
  load_file d = elim (d.fs path) [
    | none ↦ ok initial
    | some raw ↦
        if not (d.env d.moment).can_stat
        then ok initial
        else if (d.env d.moment).can_read
        then parse_file (some raw)
        else err (io reading)
  ]

  write_file : Disk → Bytes → Result (Unit {0}) CoreError × Disk
  write_file d bytes =
      let (result, fs') =
        atomic_write path bytes (d.env d.moment).suffix (d.env d.moment).weather d.fs in
      (result, record d { fs = fs'; moment = d.moment + 1 })

  -- `FileStore::store`
  unfoldable pub store_file : Disk → S → Result (Unit {0}) CoreError × Disk
  unfolding write_file
  store_file d s =
      if (d.env d.moment).can_create_dir
      then (elim (to_json s) [
        | none ↦ (err json, record d { moment = d.moment + 1 })
        | some bytes ↦ write_file d bytes
      ])
      else (err (io creating_dir), record d { moment = d.moment + 1 })

  abbrev pub file_store : Backend S Disk
  file_store = record { load = load_file; store = store_file }

  content_of : Disk → Result S CoreError
  content_of d = elim (d.fs path) [ none ↦ ok initial | some raw ↦ parse_file (some raw) ]

  parse_file-version : (raw : Bytes) (s : S) → parse_file (some raw) ≡ ok s → version s ≡ current
  unfolding parse_file
  parse_file-version raw s h = ground (arith, from_json raw)

  pub store-env : (d : Disk) (s : S) → (store_file d s).1.env ≡ d.env
  unfolding store_file write_file
  store-env d s = ground (arith, to_json s)

  -- A disk on which the file's metadata can always be read.
  abbrev pub SteadyDisk : Type 0
  SteadyDisk = (d : Disk) × ((n : ℕ) → (d.env n).can_stat ≡ true)

  abbrev pub steady_store : Backend S SteadyDisk
  steady_store = record {
    load = λ (d, steady). load_file d;
    store = λ (d, steady) s. (
      (store_file d s).0,
      ((store_file d s).1, λ n. ap (λ (e : ℕ → Env). (e n).can_stat) (store-env d s) ∙ steady n),
    );
  }

  load_file-steady :
      (d : Disk)
      → (d.env d.moment).can_stat ≡ true
      → (load_file d ≡ content_of d) ⊎ (load_file d ≡ err (io reading))
  unfolding load_file content_of
  load_file-steady d seen = ground (arith, seen)

  module _ (codec : (s : S) (bytes : Bytes) → to_json s ≡ some bytes → from_json bytes ≡ some s)
      (initial-version : version initial ≡ current) where
    content_of-version : (d : Disk) (s : S) → content_of d ≡ ok s → version s ≡ current
    unfolding content_of
    content_of-version d s h = elim (Option-cases (d.fs path)) [
      | inl e ↦ ground (arith, initial-version, e)
      | inr (raw, e) ↦ parse_file-version raw s (ground (arith, e))
    ]

    stored :
        (d : Disk) (s : S)
        → version s ≡ current
        → (store_file d s).0 ≡ ok tt
        → content_of (store_file d s).1 ≡ ok s
    unfolding store_file content_of parse_file
    stored d s fits h = elim (Option-cases (to_json s)) [
      | inl e ↦ absurd (ground (arith, e))
      | inr (bytes, e) ↦ ground (
        arith,
        e,
        codec s bytes e,
        atomic_write_result path bytes (d.env d.moment).suffix (d.env d.moment).weather d.fs,
      )
    ]

    kept :
        (d : Disk) (s : S)
        → (store_file d s).0 ≢ ok tt
        → content_of (store_file d s).1 ≡ content_of d
    unfolding store_file content_of
    kept d s h = elim (Option-cases (to_json s)) [
      | inl e ↦ ground (arith, e)
      | inr (bytes, e) ↦ ground (
        arith,
        e,
        atomic_write_result path bytes (d.env d.moment).suffix (d.env d.moment).weather d.fs,
      )
    ]

  -- If the codec reads back what it wrote, the file store is faithful to the states of the current
  -- version, on disks on which the file's metadata can always be read.
  pub file_store-IsFaithful :
      ((s : S) (bytes : Bytes) → to_json s ≡ some bytes → from_json bytes ≡ some s)
      → version initial ≡ current
      → IsFaithful (λ s. version s ≡ current) steady_store
  unfolding load_file store_file content_of
  file_store-IsFaithful codec initial-version = record {
    content = λ (d, _). content_of d;
    load-content = λ (d, steady). load_file-steady d (steady d.moment);
    content-Fits = λ (d, _) s. content_of-version codec initial-version d s;
    content-stored = λ (d, _) s fits h. stored codec initial-version d s fits h;
    content-failed = λ (d, _) s h. kept codec initial-version d s h;
  }
