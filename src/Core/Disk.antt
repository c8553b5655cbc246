-- ===== src/Core/Disk.antt =====
-- The part of a file system that the stores use, and the atomic write of registry.rs, history.rs,
-- listener.rs and engine.rs: a temporary file, then a rename. A file system maps a path to the
-- bytes of the file there. Every call may fail, as the environment decides.
pub mod Atomic
use mascara.Common.{
  ℕ, Bool, true, false, Option, none, some, List, [], ◌∷◌, ◌++◌, Result, ok, err, if◌then◌else◌,
  ◌==◌, ◌&&◌, list_eq, nat_eq, take,
}
use mascara.Common.Text.{Text, Bytes, codes}
use mascara.Core.Error.{CoreError, io, IoError, creating_file, writing, syncing, renaming}

-- A file by its directory and its name in it.
pub record FilePath : Type 0 where
  pub dir : Text
  pub name : Text

abbrev pub same_path : FilePath → FilePath → Bool
same_path p q = p.name == q.name && p.dir == q.dir

abbrev pub Fs : Type 0
Fs = FilePath → Option Bytes

unfoldable pub put : FilePath → Option Bytes → Fs → Fs
put p b fs q = if same_path p q then b else fs q

-- `File::create`, `write_all`, `sync_all` on the file and `fs::rename`.
pub data Syscall : Type 0 where
  create : FilePath → Syscall
  write : FilePath → Bytes → Syscall
  sync : FilePath → Syscall
  rename : FilePath → FilePath → Syscall

-- What a call that succeeds does.
unfoldable pub perform : Syscall → Fs → Fs
unfolding put
perform (create p) fs = put p (some []) fs
perform (write p b) fs = put p (some b) fs
perform (sync p) fs = fs
perform (rename p q) fs = put p none (put q (fs p) fs)

-- What a call that fails leaves: a failed write may have written the first bytes.
unfoldable pub fail : Syscall → ℕ → Fs → Fs
unfolding put
fail (write p b) k fs = put p (some (take k b)) fs
fail (create p) k fs = fs
fail (sync p) k fs = fs
fail (rename p q) k fs = fs

abbrev pub error_of : Syscall → IoError
error_of (create p) = creating_file
error_of (write p b) = writing
error_of (sync p) = syncing
error_of (rename p q) = renaming

-- The calls in turn, up to the first that fails. `weather` has an entry for each: `none` if the call
-- succeeds.
unfoldable pub run_calls : List Syscall → List (Option ℕ) → Fs → Result (Unit {0}) CoreError × Fs
run_calls [] weather fs = (ok tt, fs)
run_calls (c ∷ calls) (some k ∷ weather) fs = (err (io (error_of c)), fail c k fs)
run_calls (c ∷ calls) (none ∷ weather) fs = run_calls calls weather (perform c fs)
run_calls (c ∷ calls) [] fs = run_calls calls [] (perform c fs)

-- `dir.join(format!(".{ISSUED_FILE}.{}.tmp", hex))`, `hex` a random suffix.
abbrev pub tmp_path : FilePath → Text → FilePath
tmp_path path hex = record {
  dir = path.dir;
  name = codes "." ++ (path.name ++ (codes "." ++ (hex ++ codes ".tmp")));
}

abbrev pub write_calls : FilePath → Text → Bytes → List Syscall
write_calls path hex bytes =
    create (tmp_path path hex)
    ∷ write (tmp_path path hex) bytes
    ∷ sync (tmp_path path hex)
    ∷ rename (tmp_path path hex) path
    ∷ []

-- `atomic_write`
unfoldable pub atomic_write :
    FilePath → Bytes → Text → List (Option ℕ) → Fs → Result (Unit {0}) CoreError × Fs
atomic_write path bytes hex weather fs = run_calls (write_calls path hex bytes) weather fs
