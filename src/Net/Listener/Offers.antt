-- ===== src/Net/Listener/Offers.antt =====
-- The offers of listener.rs: where the bytes behind a nonce stand on this device. A path is the list of
-- its components.
use mascara.Common.{
  ℕ, ◌≡◌, refl, ap, Bool, not, Option, some, List, [], ◌∷◌, ◌++◌, Result, ok, err, ◌>>=◌,
  if◌then◌else◌, ◌==◌, list_eq, nat_eq, filter, find, eq_iff, arith,
}
use mascara.Common.Text.{Bytes}
use mascara.Common.Keyed.{has}
use mascara.Core.Registry.{Nonce}
use mascara.Core.Ticket.{FileRef, FolderRef, Grant, Payload, file_payload, folder_payload}
use mascara.Net.Error.{NetError, protocol, manifest_mismatch}
use mascara.Net.PathGuard.{Component}

abbrev pub HostPath : Type 0
HostPath = List Component

pub data OfferPayload : Type 0 where
  file_offer : HostPath → FileRef → OfferPayload
  folder_offer : HostPath → FolderRef → HostPath → OfferPayload

-- `OfferPayload::kind`
unfoldable pub payload_of : OfferPayload → Payload
payload_of (file_offer path file_ref) = file_payload file_ref
payload_of (folder_offer dir_path folder_ref manifest_path) = folder_payload folder_ref

pub record OfferRecord : Type 0 where
  pub nonce : Nonce
  pub payload : OfferPayload
  pub grant : Grant

abbrev pub offers_version : ℕ
offers_version = 2

pub record OfferFile : Type 0 where
  pub v : ℕ
  pub entries : List OfferRecord

-- `OfferFile::default`
abbrev pub no_offers : OfferFile
no_offers = record { v = offers_version; entries = [] }

abbrev pub has_offer : Nonce → OfferRecord → Bool
has_offer = has (λ r. r.nonce)

-- `retain` and `push` in `OfferStore::record`.
unfoldable pub replace_offer : OfferRecord → OfferFile → OfferFile
replace_offer r f = record f {
  entries = filter (λ e. not (e.nonce == r.nonce)) f.entries ++ r ∷ [];
}

-- The store's files: its load and store, and the write of a manifest beside it.
pub record OfferDisk (W : Type 0) : Type 0 where
  pub load : W → Result OfferFile NetError
  pub store : W → OfferFile → Result (Unit {0}) NetError × W
  pub write_manifest : W → Nonce → Bytes → Result (Unit {0}) NetError × W
  pub manifest_path_for : Nonce → HostPath

module _ {W : Type 0} (disk : OfferDisk W) where
  -- `OfferStore::record`
  unfoldable pub record_offer : W → OfferRecord → Result (Unit {0}) NetError × W
  unfolding replace_offer
  record_offer w r = elim (disk.load w) [
    | err e ↦ (err e, w)
    | ok f ↦ disk.store w (replace_offer r f)
  ]

  -- `OfferStore::record_file`
  unfoldable pub record_file :
      W → Nonce → HostPath → FileRef → Grant → Result (Unit {0}) NetError × W
  unfolding record_offer
  record_file w n path file_ref grant =
      record_offer w (record { nonce = n; payload = file_offer path file_ref; grant = grant })

  -- `OfferStore::record_folder`
  unfoldable pub record_folder :
      (Bytes → Bytes)
      → W
      → Nonce
      → HostPath
      → FolderRef
      → Bytes
      → Grant
      → Result (Unit {0}) NetError × W
  unfolding record_offer
  record_folder digest w n dir_path folder_ref manifest_bytes grant =
      if not (digest manifest_bytes == folder_ref.root_hash)
      then (err (protocol manifest_mismatch), w)
      else (elim (disk.write_manifest w n manifest_bytes).0 [
        | err e ↦ (err e, (disk.write_manifest w n manifest_bytes).1)
        | ok _ ↦ record_offer (disk.write_manifest w n manifest_bytes).1 (record {
          nonce = n;
          payload = folder_offer dir_path folder_ref (disk.manifest_path_for n);
          grant = grant;
        })
      ])

  -- `OfferStore::find`
  unfoldable pub find_offer : W → Nonce → Result (Option OfferRecord) NetError
  find_offer w n = disk.load w >>= λ f. ok (find (has_offer n) f.entries)

find-replaced :
    (r : OfferRecord) (m : Nonce) (xs : List OfferRecord)
    → find (has_offer m) (filter (λ e. not (e.nonce == r.nonce)) xs ++ r ∷ [])
      ≡ (if r.nonce == m then some r else find (has_offer m) xs)
find-replaced r m [] = refl
find-replaced r m (x ∷ xs) = ground (
  arith,
  find-replaced r m xs,
  eq_iff x.nonce r.nonce,
  eq_iff x.nonce m,
  eq_iff r.nonce m,
  ap (λ (k : Nonce). k == m) {x = x.nonce} {y = r.nonce},
)

-- Recording an offer makes it the one that is found for its nonce, and changes what is found for no
-- other.
pub find-replace_offer :
    (r : OfferRecord) (m : Nonce) (f : OfferFile)
    → find (has_offer m) (replace_offer r f).entries
      ≡ (if r.nonce == m then some r else find (has_offer m) f.entries)
unfolding replace_offer
find-replace_offer r m f = find-replaced r m f.entries
