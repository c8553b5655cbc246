-- ===== src/Core/Share.antt =====
-- crates/mascara-core/src/share.rs: the descriptor of a file or folder to be offered, and the ticket
-- that is minted from it. A hash is its bytes, not the hex of the JSON form.
pub mod Minted
use mascara.Common.{
  ℕ, not, Option, List, map, Result, ok, err, ◌>>=◌, ok_or, if◌then◌else◌, ◌==◌, list_eq, nat_eq,
}
use mascara.Common.Text.{Text, Bytes}
use mascara.Core.Error.{
  CoreError, ticket, io, reading, could_not_decode, could_not_read, root_hash_mismatch,
}
use mascara.Core.Card.{LinkAssertion}
use mascara.Core.Manifest.{Manifest, ManifestEntry, manifest_version, encode}
use mascara.Core.Ticket.{FileRef, FolderRef, Endpoint, Ticket, new_file, new_folder}

pub record FolderEntry : Type 0 where
  pub rel_path : Text
  pub size : ℕ
  pub sha256 : Bytes
  pub md5 : Bytes
  pub mode : ℕ

pub record FileDescriptor : Type 0 where
  pub name : Text
  pub size : ℕ
  pub sha256 : Bytes
  pub md5 : Bytes
  pub mime : Option Text
  pub link_assertion : Option LinkAssertion

pub record FolderDescriptor : Type 0 where
  pub name : Text
  pub root_hash : Bytes
  pub entries : List FolderEntry
  pub link_assertion : Option LinkAssertion

pub data ShareDescriptor : Type 0 where
  file_share : FileDescriptor → ShareDescriptor
  folder_share : FolderDescriptor → ShareDescriptor

-- `FolderEntry::into_manifest_entry`, and `From<&ManifestEntry>`.
unfoldable pub into_manifest_entry : FolderEntry → ManifestEntry
into_manifest_entry e = record {
  rel_path = e.rel_path;
  size = e.size;
  sha256 = e.sha256;
  md5 = e.md5;
  mode = e.mode;
}

unfoldable pub from_manifest_entry : ManifestEntry → FolderEntry
from_manifest_entry e = record {
  rel_path = e.rel_path;
  size = e.size;
  sha256 = e.sha256;
  md5 = e.md5;
  mode = e.mode;
}

-- `ShareDescriptor::from_json_str` and `from_json_file`; `serde_json` is not part of the repository.
unfoldable pub from_json_str :
    (Text → Option ShareDescriptor) → Text → Result ShareDescriptor CoreError
from_json_str parse s = ok_or (parse s) (ticket could_not_decode)

unfoldable pub from_json_file :
    (Text → Option ShareDescriptor) → Option Text → Result ShareDescriptor CoreError
unfolding from_json_str
from_json_file parse content = ok_or content (ticket could_not_read) >>= from_json_str parse

-- `FileDescriptor::file_ref`
unfoldable pub file_ref_of : FileDescriptor → FileRef
file_ref_of d = record {
  name = d.name;
  size = d.size;
  sha256 = d.sha256;
  md5 = d.md5;
  mime = d.mime;
}

-- `FileDescriptor::into_file_ticket`
unfoldable pub into_file_ticket : FileDescriptor → Endpoint → Bytes → Option ℕ → Bytes → Ticket
unfolding file_ref_of
into_file_ticket d endpoint sender_card expires_at nonce =
    new_file (file_ref_of d) endpoint sender_card d.link_assertion expires_at nonce

-- The manifest of a descriptor's entries.
unfoldable pub manifest_of : FolderDescriptor → Manifest
unfolding into_manifest_entry
manifest_of d = record { v = manifest_version; entries = map into_manifest_entry d.entries }

module _ (to_postcard : Manifest → Option Bytes) (from_postcard : Bytes → Option Manifest)
    (digest : Bytes → Bytes) where
  -- `FolderDescriptor::verify_root_hash`
  unfoldable pub verify_root_hash : FolderDescriptor → Result (Bytes × FolderRef) CoreError
  unfolding manifest_of
  verify_root_hash d = encode to_postcard from_postcard digest (manifest_of d) >>= λ bytes.
      if not (digest bytes == d.root_hash)
      then err (ticket (root_hash_mismatch d.root_hash (digest bytes)))
      else ok (bytes, record { name = d.name; root_hash = d.root_hash })

  -- `FolderDescriptor::into_folder_ticket`
  unfoldable pub into_folder_ticket :
      FolderDescriptor → Endpoint → Bytes → Option ℕ → Bytes → Result (Ticket × Bytes) CoreError
  unfolding verify_root_hash
  into_folder_ticket d endpoint sender_card expires_at nonce = verify_root_hash d >>= λ found.
      ok (new_folder found.1 endpoint sender_card d.link_assertion expires_at nonce, found.0)
