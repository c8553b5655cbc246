-- ===== src/Net/Fetch/Verified.antt =====
-- What a manifest is worth that engine.rs fetched.
use mascara.Common.{
  then_branch, else_branch, ◌≤◌, ◌≡◌, ◌≢◌, refl, ap, sym, ◌∙◌, Option, some, ◌++◌, Result, ok, err,
  length, Bool-cases, Option-cases, Result-cases, inl, inr,
}
use mascara.Common.Text.{Text, Bytes, codes}
use mascara.Core.Registry.{Nonce}
use mascara.Core.Ticket.{FolderRef}
use mascara.Core.Error.{CoreError}
use mascara.Core.Manifest.{
  Manifest, into_manifest, decode_and_verify, hard_cap_bytes, manifest_version,
}
use mascara.Core.Manifest.Verified.{decode_and_verify_iff}
use mascara.Core.Disk.{FilePath, Fs, atomic_write}
use mascara.Core.Disk.Atomic.{atomic_write_result}
use mascara.Net.Error.{NetError, io}
use mascara.Net.Listener.Serve.{Request, manifest_op}
use mascara.Net.Wire.{request_frame}
use mascara.Net.Fetch.{CacheEnv, read_manifest, cached, keep_manifest, fetch_manifest}

cached-ok :
    (m out : Manifest) (r : Result (Unit {0}) CoreError × Fs) (fs : Fs)
    → cached m r ≡ (ok out, fs)
    → (m ≡ out) × (r.0 ≡ ok tt) × (r.1 ≡ fs)
unfolding cached
cached-ok m out (ok u, after) fs h =
    let both : ◌≡◌ {A = Result Manifest NetError × Fs} (ok m, after) (ok out, fs) = h in
    (cc (both), refl, cc (both))
cached-ok m out (err why, after) fs h =
    let both : ◌≡◌ {A = Result Manifest NetError × Fs} (err io, after) (ok out, fs) = h in cc (both)

cached-err :
    (m : Manifest) (why : NetError) (r : Result (Unit {0}) CoreError × Fs) (fs : Fs)
    → cached m r ≡ (err why, fs)
    → (r.0 ≢ ok tt) × (r.1 ≡ fs)
unfolding cached
cached-err m why (ok u, after) fs h =
    let both : ◌≡◌ {A = Result Manifest NetError × Fs} (ok m, after) (err why, fs) = h in cc (both)
cached-err m why (err other, after) fs h =
    let both : ◌≡◌ {A = Result Manifest NetError × Fs} (err io, after) (err why, fs) = h in
    ((λ e. cc (e)), cc (both))

same_fs :
    {e f : NetError} {fs fs' : Fs} (path : FilePath)
    → ◌≡◌ {A = Result Manifest NetError × Fs} (err e, fs) (err f, fs')
    → fs' path ≡ fs path
same_fs {e} {f} {fs} {fs'} path h =
    let same : fs ≡ fs' = cc (h) in ap (λ (x : Fs). x path) (sym same)

failed_pair :
    {A : Type 0} {e : NetError} {m : Manifest} {fs fs' : Fs}
    → ◌≡◌ {A = Result Manifest NetError × Fs} (err e, fs) (ok m, fs')
    → A
failed_pair h = cc (h)

module _ (to_postcard : Manifest → Option Bytes) (from_postcard : Bytes → Option Manifest)
    (digest : Bytes → Bytes) where
  -- The bytes that stand in the cache are those of the manifest, within the cap.
  abbrev pub IsFetched : FolderRef → FilePath → Manifest → Fs → Type 0
  IsFetched folder_ref path m fs =
      (buf : Bytes) × (fs path ≡ some buf)
      × (length buf ≤ hard_cap_bytes)
      × (digest buf ≡ folder_ref.root_hash)
      × (from_postcard buf ≡ some m)
      × (m.v ≡ manifest_version)

  keep_manifest-IsFetched :
      (lossy : Bytes → Text) (env : CacheEnv) (path : FilePath) (folder_ref : FolderRef)
      (buf : Bytes) (fs : Fs) (m : Manifest) (fs' : Fs)
      → keep_manifest to_postcard from_postcard digest lossy env path folder_ref buf fs
        ≡ (ok m, fs')
      → IsFetched folder_ref path m fs'
  unfolding keep_manifest
  keep_manifest-IsFetched lossy env path folder_ref buf fs m fs' h =
      elim (Result-cases
        (decode_and_verify to_postcard from_postcard digest buf folder_ref.root_hash)) [
          | inr (why, e) ↦ cc (rw (keep_manifest, e) at h)
          | inl (outcome, e) ↦
              let h' = rw (keep_manifest, e) at h in
              elim (Bool-cases env.can_create_dir) [
                | inr n ↦ cc (else_branch env.can_create_dir _ _ n h')
                | inl y ↦
                    let (same, written, after) =
                      cached-ok (into_manifest outcome) m
                        (atomic_write path buf env.suffix env.weather fs) fs'
                        (then_branch env.can_create_dir _ _ y h') in
                    let (small, decoded, version, hashed, _) =
                      (decode_and_verify_iff to_postcard from_postcard digest buf
                          folder_ref.root_hash outcome).0
                        e in
                    let there : (atomic_write path buf env.suffix env.weather fs).1 path
                        ≡ some buf =
                      elim (atomic_write_result path buf env.suffix env.weather fs) [
                        | inl (_, whole) ↦ whole
                        | inr (bad, _) ↦ absurd (bad written)
                      ] in
                    (
                      buf,
                      ap (λ (x : Fs). x path) (sym after) ∙ there,
                      small,
                      hashed,
                      decoded ∙ ap some same,
                      ap (λ (x : Manifest). x.v) (sym same) ∙ version,
                    )
              ]
        ]

  keep_manifest-failed :
      (lossy : Bytes → Text) (env : CacheEnv) (path : FilePath) (folder_ref : FolderRef)
      (buf : Bytes) (fs : Fs) (why : NetError) (fs' : Fs)
      → keep_manifest to_postcard from_postcard digest lossy env path folder_ref buf fs
        ≡ (err why, fs')
      → fs' path ≡ fs path
  unfolding keep_manifest
  keep_manifest-failed lossy env path folder_ref buf fs why fs' h =
      elim (Result-cases
        (decode_and_verify to_postcard from_postcard digest buf folder_ref.root_hash)) [
          | inr (other, e) ↦ same_fs path (rw (keep_manifest, e) at h)
          | inl (outcome, e) ↦
              let h' = rw (keep_manifest, e) at h in
              elim (Bool-cases env.can_create_dir) [
                | inr n ↦ same_fs path (else_branch env.can_create_dir _ _ n h')
                | inl y ↦
                    let (failed, after) =
                      cached-err (into_manifest outcome) why
                        (atomic_write path buf env.suffix env.weather fs) fs'
                        (then_branch env.can_create_dir _ _ y h') in
                    elim (atomic_write_result path buf env.suffix env.weather fs) [
                      | inl (good, _) ↦ absurd (failed good)
                      | inr (_, same) ↦ ap (λ (x : Fs). x path) (sym after) ∙ same
                    ]
              ]
        ]

  module _ (lossy : Bytes → Text) (serialize : Request → Option Bytes) (hex : Nonce → Text) where
    -- A manifest is returned only if the bytes it was decoded from are within the hard cap, hash to the
    -- commitment of the ticket and carry the current version; these bytes then stand in the cache, in the
    -- file named for the ticket's nonce.
    pub fetch_manifest-IsFetched :
        (env : CacheEnv) (manifests : Text) (peer : Bytes → Bytes) (nonce : Nonce)
        (folder_ref : FolderRef) (fs : Fs) (m : Manifest) (fs' : Fs)
        → fetch_manifest to_postcard from_postcard digest lossy serialize hex env manifests peer
            nonce folder_ref fs
          ≡ (ok m, fs')
        → IsFetched folder_ref
            (record { dir = manifests; name = hex nonce ++ codes ".postcard" })
            m
            fs'
    unfolding fetch_manifest
    fetch_manifest-IsFetched env manifests peer nonce folder_ref fs m fs' h =
        elim (Option-cases (serialize (record { v = 1; nonce = nonce; op = manifest_op }))) [
          | inl e ↦ failed_pair (rw (fetch_manifest, e) at h)
          | inr (json, e) ↦ elim (Result-cases (read_manifest lossy (peer (request_frame json)))) [
            | inr (why, f) ↦ failed_pair (rw (fetch_manifest, e, f) at h)
            | inl (buf, f) ↦
                keep_manifest-IsFetched lossy env
                  (record { dir = manifests; name = hex nonce ++ codes ".postcard" }) folder_ref buf
                  fs m fs' (rw (fetch_manifest, e, f) at h)
          ]
        ]

    -- A fetch that fails leaves the cached copy as it was.
    pub fetch_manifest-failed :
        (env : CacheEnv) (manifests : Text) (peer : Bytes → Bytes) (nonce : Nonce)
        (folder_ref : FolderRef) (fs : Fs) (why : NetError) (fs' : Fs)
        → fetch_manifest to_postcard from_postcard digest lossy serialize hex env manifests peer
            nonce folder_ref fs
          ≡ (err why, fs')
        → let path : FilePath = record { dir = manifests; name = hex nonce ++ codes ".postcard" } in
          fs' path ≡ fs path
    unfolding fetch_manifest
    fetch_manifest-failed env manifests peer nonce folder_ref fs why fs' h =
        let path : FilePath = record { dir = manifests; name = hex nonce ++ codes ".postcard" } in
        elim (Option-cases (serialize (record { v = 1; nonce = nonce; op = manifest_op }))) [
          | inl e ↦ same_fs path (rw (fetch_manifest, e) at h)
          | inr (json, e) ↦ elim (Result-cases (read_manifest lossy (peer (request_frame json)))) [
            | inr (other, f) ↦ same_fs path (rw (fetch_manifest, e, f) at h)
            | inl (buf, f) ↦
                keep_manifest-failed lossy env path folder_ref buf fs why fs'
                  (rw (fetch_manifest, e, f) at h)
          ]
        ]
