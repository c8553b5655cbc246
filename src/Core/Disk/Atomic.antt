-- ===== src/Core/Disk/Atomic.antt =====
-- `atomic_write` never leaves a torn file under its target's name.
use mascara.Common.{
  ℕ, ◌≡◌, ◌≢◌, refl, ap, true, false, Option, some, List, [], ◌∷◌, ◌++◌, ok, eq_refl, eq_false,
  list_eq, nat_eq, arith, length, length-append, take, zero, suc, ◌⊎◌, inl,
}
use mascara.Common.Text.{Text, Bytes, codes}
use mascara.Core.Disk.{
  FilePath, same_path, Fs, put, Syscall, create, write, sync, rename, perform, fail, run_calls,
  tmp_path, write_calls, atomic_write,
}

-- The temporary file has another name.
tmp_path-ne : (path : FilePath) (hex : Text) → (tmp_path path hex).name ≢ path.name
tmp_path-ne path hex e =
    absurd
      (omega (arith, ap length e, length-append path.name (codes "." ++ (hex ++ codes ".tmp"))))

tmp_path-other : (path : FilePath) (hex : Text) → same_path (tmp_path path hex) path ≡ false
tmp_path-other path hex =
    rw (eq_false (tmp_path path hex).name path.name (tmp_path-ne path hex)) refl

same_path_refl : (p : FilePath) → same_path p p ≡ true
same_path_refl p = rw (eq_refl p.name, eq_refl p.dir) refl

module _ (tmp path : FilePath) (bytes : Bytes) (other : same_path tmp path ≡ false) where
  abbrev calls : List Syscall
  calls = create tmp ∷ write tmp bytes ∷ sync tmp ∷ rename tmp path ∷ []

  abbrev Seen : Fs → Fs → Type 0
  Seen fs after = (after path ≡ fs path) ⊎ (after path ≡ some bytes)

  calls_result :
      (weather : List (Option ℕ)) (fs : Fs)
      → let (result, after) = run_calls calls weather fs in
        ((result ≡ ok tt) × (after path ≡ some bytes)) ⊎ ((result ≢ ok tt) × (after path ≡ fs path))
  unfolding run_calls perform fail put
  calls_result weather fs = ground (arith, other, same_path_refl path, same_path_refl tmp)

  calls_untorn :
      (k : ℕ) (weather : List (Option ℕ)) (fs : Fs)
      → Seen fs (run_calls (take k calls) weather fs).1
  unfolding run_calls perform fail put
  calls_untorn zero weather fs = inl refl
  calls_untorn (suc zero) weather fs = ground (arith, other)
  calls_untorn (suc (suc zero)) weather fs = ground (arith, other)
  calls_untorn (suc (suc (suc zero))) weather fs = ground (arith, other)
  calls_untorn (suc (suc (suc (suc zero)))) weather fs =
      ground (arith, other, same_path_refl path, same_path_refl tmp)
  calls_untorn (suc (suc (suc (suc (suc k))))) weather fs =
      ground (arith, other, same_path_refl path, same_path_refl tmp)

-- Whatever the faults and the moment at which the process is stopped (after `k` calls), a reader of
-- the target sees the file as it was, or whole with the new bytes.
pub atomic_write_untorn :
    (path : FilePath) (bytes : Bytes) (hex : Text) (weather : List (Option ℕ)) (fs : Fs) (k : ℕ)
    → let seen = (run_calls (take k (write_calls path hex bytes)) weather fs).1 path in
      (seen ≡ fs path) ⊎ (seen ≡ some bytes)
atomic_write_untorn path bytes hex weather fs k =
    calls_untorn (tmp_path path hex) path bytes (tmp_path-other path hex) k weather fs

-- On success the target holds the new bytes, and on an error it is as it was.
pub atomic_write_result :
    (path : FilePath) (bytes : Bytes) (hex : Text) (weather : List (Option ℕ)) (fs : Fs)
    → let (result, after) = atomic_write path bytes hex weather fs in
      ((result ≡ ok tt) × (after path ≡ some bytes)) ⊎ ((result ≢ ok tt) × (after path ≡ fs path))
unfolding atomic_write
atomic_write_result path bytes hex weather fs =
    calls_result (tmp_path path hex) path bytes (tmp_path-other path hex) weather fs
