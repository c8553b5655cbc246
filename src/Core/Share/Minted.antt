-- ===== src/Core/Share/Minted.antt =====
-- What a ticket is worth that share.rs minted for a folder.
use mascara.Common.{
  ℕ, ◌≤◌, ◌≡◌, refl, ap, sym, ◌∙◌, Option, some, map, Result, ok, >>=-eq-ok, ok_or-eq-ok, ◌==◌,
  list_eq, nat_eq, length, eq_iff, Bool-cases, inl, inr,
}
use mascara.Common.Text.{Bytes}
use mascara.Core.Error.{CoreError}
use mascara.Core.Manifest.{
  Manifest, DecodeOutcome, into_manifest, encode, decode_and_verify, hard_cap_bytes,
}
use mascara.Core.Manifest.Verified.{decode_and_verify-some}
use mascara.Core.Ticket.{FolderRef, Endpoint, Ticket, file_ref, folder_ref, new_file, new_folder}
use mascara.Core.Share.{
  FileDescriptor, FolderDescriptor, into_manifest_entry, file_ref_of, into_file_ticket, manifest_of,
  verify_root_hash, into_folder_ticket,
}

module _ (to_postcard : Manifest → Option Bytes) (from_postcard : Bytes → Option Manifest)
    (digest : Bytes → Bytes) where
  verify_root_hash-ok :
      (d : FolderDescriptor) (bytes : Bytes) (r : FolderRef)
      → verify_root_hash to_postcard from_postcard digest d ≡ ok (bytes, r)
      → (to_postcard (manifest_of d) ≡ some bytes)
        × (digest bytes ≡ d.root_hash)
        × (r ≡ record { name = d.name; root_hash = d.root_hash })
  unfolding verify_root_hash encode
  verify_root_hash-ok d bytes r h =
      let (written, e, h1) =
        >>=-eq-ok (encode to_postcard from_postcard digest (manifest_of d)) _ h in
      elim (Bool-cases (digest written == d.root_hash)) [
        | inr bad ↦ cc (rw bad at h1)
        | inl good ↦
            let both : ◌≡◌ {A = Result (Bytes × FolderRef) CoreError}
                (ok (written, record { name = d.name; root_hash = d.root_hash })) (ok (bytes, r)) =
              rw good at h1 in
            let same : written ≡ bytes = cc (both) in
            (
              ok_or-eq-ok _ _ e ∙ ap some same,
              ap digest (sym same) ∙ (eq_iff (digest written) d.root_hash).0 good,
              cc (both),
            )
      ]

  version_is : (d : FolderDescriptor) → (manifest_of d).v ≡ 1
  unfolding manifest_of
  version_is d = refl

  entries_are : (d : FolderDescriptor) → (manifest_of d).entries ≡ map into_manifest_entry d.entries
  unfolding manifest_of
  entries_are d = refl

  -- A folder ticket is minted only from a descriptor whose root hash is that of its own entries'
  -- encoding, which comes with the ticket. It is a folder ticket with the descriptor's name and root
  -- hash, the caller's nonce and expiry.
  pub into_folder_ticket-own :
      (d : FolderDescriptor) (endpoint : Endpoint) (card : Bytes) (expires_at : Option ℕ)
      (nonce : Bytes) (t : Ticket) (bytes : Bytes)
      → into_folder_ticket to_postcard from_postcard digest d endpoint card expires_at nonce
        ≡ ok (t, bytes)
      → (to_postcard (manifest_of d) ≡ some bytes)
        × (digest bytes ≡ d.root_hash)
        × (folder_ref t ≡ some (record { name = d.name; root_hash = d.root_hash }))
        × (file_ref t ≡ Option.none)
        × (t.nonce ≡ nonce)
        × (t.expires_at ≡ expires_at)
  unfolding into_folder_ticket folder_ref file_ref new_folder
  into_folder_ticket-own d endpoint card expires_at nonce t bytes h =
      let (found, e, h1) = >>=-eq-ok (verify_root_hash to_postcard from_postcard digest d) _ h in
      let (written, hashed, r) = verify_root_hash-ok d found.0 found.1 e in
      let both : ◌≡◌ {A = Result (Ticket × Bytes) CoreError}
          (ok (new_folder found.1 endpoint card d.link_assertion expires_at nonce, found.0))
          (ok (t, bytes)) =
        h1 in
      let made : new_folder found.1 endpoint card d.link_assertion expires_at nonce ≡ t =
        cc (both) in
      let same : found.0 ≡ bytes = cc (both) in
      (
        written ∙ ap some same,
        ap digest (sym same) ∙ hashed,
        ap folder_ref (sym made) ∙ ap some r,
        ap file_ref (sym made),
        ap (λ (x : Ticket). x.nonce) (sym made),
        ap (λ (x : Ticket). x.expires_at) (sym made),
      )

  -- If postcard reads back the manifest of the descriptor, the bytes that come with a minted folder
  -- ticket, if they are within the hard cap, pass a receiver's verification against the root hash on
  -- the ticket and give exactly the entries of the descriptor.
  pub into_folder_ticket-verified :
      (d : FolderDescriptor) (endpoint : Endpoint) (card : Bytes) (expires_at : Option ℕ)
      (nonce : Bytes) (t : Ticket) (bytes : Bytes)
      → into_folder_ticket to_postcard from_postcard digest d endpoint card expires_at nonce
        ≡ ok (t, bytes)
      → ((b : Bytes)
          → to_postcard (manifest_of d) ≡ some b
          → from_postcard b ≡ some (manifest_of d))
      → length bytes ≤ hard_cap_bytes
      → (r : FolderRef) × (folder_ref t ≡ some r)
        × (o : DecodeOutcome) × (decode_and_verify to_postcard from_postcard digest bytes
              r.root_hash
            ≡ ok o)
        × ((into_manifest o).entries ≡ map into_manifest_entry d.entries)
  into_folder_ticket-verified d endpoint card expires_at nonce t bytes h read small =
      let (own, sealed, carried, _, _, _) =
        into_folder_ticket-own d endpoint card expires_at nonce t bytes h in
      let (o, decoded, manifest) =
        decode_and_verify-some to_postcard from_postcard digest bytes d.root_hash (manifest_of d)
          small sealed (read bytes own) (version_is d) in
      (
        record { name = d.name; root_hash = d.root_hash },
        carried,
        o,
        decoded,
        ap (λ (x : Manifest). x.entries) manifest ∙ entries_are d,
      )

-- A file ticket carries the descriptor's facts as they are, and is no folder ticket.
pub into_file_ticket-carried :
    (d : FileDescriptor) (endpoint : Endpoint) (card : Bytes) (expires_at : Option ℕ)
    (nonce : Bytes)
    → let t = into_file_ticket d endpoint card expires_at nonce in
      (file_ref t ≡ some (file_ref_of d)) × (folder_ref t ≡ Option.none) × (t.nonce ≡ nonce)
unfolding into_file_ticket new_file file_ref folder_ref
into_file_ticket-carried d endpoint card expires_at nonce = (refl, refl, refl)
