-- ===== src/Net/Fetch/Served.antt =====
-- A manifest of listener.rs that engine.rs fetches: the two sides together.
use mascara.Common.{
  ℕ, ◌%◌, ◌≤◌, ◌≡◌, refl, ap, ◌∙◌, true, Option, some, [], ◌∷◌, ◌++◌, ok, length, take, eq_iff, inl,
  inr, arith, list_eq, nat_eq, List,
}
use mascara.Common.Text.{Text, Bytes, codes}
use mascara.Core.Registry.{Nonce, IssuedTickets}
use mascara.Core.Ticket.{FolderRef, Metadata, download}
use mascara.Core.Manifest.{Manifest, hard_cap_bytes}
use mascara.Core.Manifest.Verified.{decode_and_verify-some}
use mascara.Core.Disk.{FilePath, Fs, atomic_write, run_calls}
use mascara.Core.Disk.Atomic.{atomic_write_result}
use mascara.Net.Listener.{authorize}
use mascara.Net.Listener.Offers.{HostPath, OfferRecord, folder_offer}
use mascara.Net.Listener.Serve.{
  Host, Request, manifest_op, Message, stream, read_stored_manifest, serve_manifest_op, dispatch,
  by_grant, handle_parsed, handle_request, max_request_frame,
}
use mascara.Net.Wire.{
  write_u32_le, request_frame, reply_frame, answer_frame, read-write_u64, from_quarters, quarters,
}
use mascara.Net.Fetch.{CacheEnv, read_manifest, cached, keep_manifest, fetch_manifest}

pub take-length {ℓ} : {A : Type ℓ} (xs : List A) → take (length xs) xs ≡ xs
take-length [] = refl
take-length (x ∷ xs) = ap (λ ys. x ∷ ys) (take-length xs)

read_manifest-stream :
    (lossy : Bytes → Text) (utf8 : Message → Bytes) (buf : Bytes)
    → length buf ≤ hard_cap_bytes
    → read_manifest lossy (reply_frame utf8 (stream (length buf) buf)) ≡ ok buf
unfolding read_manifest reply_frame
read_manifest-stream lossy utf8 buf small =
    rw (read_manifest, read-write_u64 (length buf) buf (omega (arith, small)))
      (ground (arith, small, take-length buf))

cached-written :
    (m : Manifest) (path : FilePath) (buf : Bytes) (suffix : Text) (fs : Fs)
    → let (result, after) = cached m (atomic_write path buf suffix [] fs) in
      (result ≡ ok m) × (after path ≡ some buf)
unfolding cached atomic_write run_calls
cached-written m path buf suffix fs = elim (atomic_write_result path buf suffix [] fs) [
  | inl (_, whole) ↦ (refl, whole)
  | inr (bad, _) ↦ absurd (bad refl)
]

module _ (to_postcard : Manifest → Option Bytes) (from_postcard : Bytes → Option Manifest)
    (digest : Bytes → Bytes) where
  keep_manifest-kept :
      (lossy : Bytes → Text) (env : CacheEnv) (path : FilePath) (folder_ref : FolderRef)
      (buf : Bytes) (fs : Fs) (m : Manifest)
      → length buf ≤ hard_cap_bytes
      → digest buf ≡ folder_ref.root_hash
      → from_postcard buf ≡ some m
      → m.v ≡ 1
      → env.can_create_dir ≡ true
      → env.weather ≡ []
      → let (result, after) =
          keep_manifest to_postcard from_postcard digest lossy env path folder_ref buf fs in
        (result ≡ ok m) × (after path ≡ some buf)
  unfolding keep_manifest
  keep_manifest-kept lossy env path folder_ref buf fs m small hashed decoded version made calm =
      let (o, e, same) =
        decode_and_verify-some to_postcard from_postcard digest buf folder_ref.root_hash m small
          hashed decoded version in
      rw (keep_manifest, e, made, calm, same) (cached-written m path buf env.suffix fs)

module _ (host : Host) (to_postcard : Manifest → Option Bytes)
    (from_postcard : Bytes → Option Manifest) (digest : Bytes → Bytes)
    (parse_request : Bytes → Option Request) where
  -- A frame within the cap is handled as the request that it parses to.
  pub handle_framed :
      (remote : Bytes) (tickets : IssuedTickets) (lookup : Nonce → Option OfferRecord) (now : ℕ)
      (json : Bytes) (req : Request)
      → length json ≤ max_request_frame
      → parse_request json ≡ some req
      → handle_request host to_postcard from_postcard digest parse_request remote tickets lookup now
          (request_frame json)
        ≡ handle_parsed host to_postcard from_postcard digest remote tickets lookup now req
  unfolding handle_request request_frame write_u32_le
  handle_framed remote tickets lookup now json req small parsed =
      let len : from_quarters (length json % 4294967296) ≡ length json =
        omega (arith, quarters (length json % 4294967296), small) in
      rw (len, take-length json, parsed) (ground (arith, small))

  manifest_is_served :
      (remote : Bytes) (tickets : IssuedTickets) (lookup : Nonce → Option OfferRecord) (now : ℕ)
      (nonce : Nonce) (dir path : HostPath) (folder_ref : FolderRef) (md : Metadata) (buf : Bytes)
      → authorize tickets nonce remote now ≡ ok tt
      → lookup nonce
        ≡ some
            (record { nonce = nonce; payload = folder_offer dir folder_ref path; grant = download })
      → host.metadata path ≡ some md
      → md.len ≤ hard_cap_bytes
      → host.content path ≡ some buf
      → length buf ≤ hard_cap_bytes
      → digest buf ≡ folder_ref.root_hash
      → handle_parsed host to_postcard from_postcard digest remote tickets lookup now
          (record { v = 1; nonce = nonce; op = manifest_op })
        ≡ ok (stream (length buf) buf)
  unfolding handle_parsed by_grant dispatch serve_manifest_op read_stored_manifest
  manifest_is_served remote tickets lookup now nonce dir path folder_ref md buf a l m ml c cl
        hashed =
      rw (a, l, m, c) (ground (arith, ml, cl, eq_iff (digest buf) folder_ref.root_hash, hashed))

  module _ (utf8 : Message → Bytes) where
    -- The connection to a server in this state.
    abbrev pub connection : Bytes → IssuedTickets → (Nonce → Option OfferRecord) → ℕ → Bytes → Bytes
    connection remote tickets lookup now sent = answer_frame utf8 (
        handle_request host to_postcard from_postcard digest parse_request remote tickets lookup now
          sent)

    module _ (lossy : Bytes → Text) (serialize : Request → Option Bytes) (hex : Nonce → Text) where
      -- The recipient of a live folder ticket that fetches the manifest from the server gets it, and the
      -- bytes that the server has in store are in the cache, if they are a manifest of the current
      -- version within the hard cap that the ticket commits to, the request is written within the cap
      -- and parses to itself, and nothing fails locally.
      pub fetch_manifest-connection :
          (remote : Bytes) (tickets : IssuedTickets) (lookup : Nonce → Option OfferRecord) (now : ℕ)
          (nonce : Nonce) (dir path : HostPath) (folder_ref : FolderRef) (md : Metadata)
          (buf json : Bytes) (manifest : Manifest) (env : CacheEnv) (manifests : Text) (fs : Fs)
          → authorize tickets nonce remote now ≡ ok tt
          → lookup nonce
            ≡ some (record {
              nonce = nonce;
              payload = folder_offer dir folder_ref path;
              grant = download;
            })
          → host.metadata path ≡ some md
          → md.len ≤ hard_cap_bytes
          → host.content path ≡ some buf
          → length buf ≤ hard_cap_bytes
          → digest buf ≡ folder_ref.root_hash
          → from_postcard buf ≡ some manifest
          → manifest.v ≡ 1
          → serialize (record { v = 1; nonce = nonce; op = manifest_op }) ≡ some json
          → parse_request json ≡ some (record { v = 1; nonce = nonce; op = manifest_op })
          → length json ≤ max_request_frame
          → env.can_create_dir ≡ true
          → env.weather ≡ []
          → let (result, after) =
              fetch_manifest to_postcard from_postcard digest lossy serialize hex env manifests
                (connection remote tickets lookup now)
                nonce
                folder_ref
                fs in
            (result ≡ ok manifest)
            × (after (record { dir = manifests; name = hex nonce ++ codes ".postcard" }) ≡ some buf)
      unfolding fetch_manifest answer_frame
      fetch_manifest-connection remote tickets lookup now nonce dir path folder_ref md buf json
            manifest env manifests fs a l m ml c cl hashed decoded version written parsed small made
            calm =
          let served =
            handle_framed remote tickets lookup now json
              (record { v = 1; nonce = nonce; op = manifest_op }) small parsed
            ∙ manifest_is_served remote tickets lookup now nonce dir path folder_ref md buf a l m ml
                c cl hashed in
          rw (fetch_manifest, written, served, read_manifest-stream lossy utf8 buf cl)
            (keep_manifest-kept to_postcard from_postcard digest lossy env _ folder_ref buf fs
              manifest cl hashed decoded version made calm)
