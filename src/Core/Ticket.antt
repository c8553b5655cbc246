-- ===== src/Core/Ticket.antt =====
-- crates/mascara-core/src/ticket.rs: a ticket, sealed to a recipient and opened by them; and
-- crates/mascara-core/src/source.rs, the check of a source before any byte of it is sent. postcard,
-- base64 and the sealed box are not part of the repository.
pub mod Opening
use mascara.Common.{
  ℕ, Bool, not, Option, none, some, List, ◌++◌, Result, ok, err, ◌>>=◌, ok_or, ltb, eqb,
  if◌then◌else◌, length,
}
use mascara.Common.Text.{Text, Bytes, codes, trim, strip_prefix}
use mascara.Core.Error.{
  CoreError, seal, ticket, could_not_encode, could_not_decode, missing_prefix, not_base64,
  not_sealed, wrong_key_or_tampered, unsupported_version, encryption_failed,
}
use mascara.Core.Card.{Card, LinkAssertion, from_payload_bytes, verify_link_assertion}

pub data Kind : Type 0 where
  file folder : Kind

pub data Grant : Type 0 where
  download sync : Grant

pub record FileRef : Type 0 where
  pub name : Text
  pub size : ℕ
  pub sha256 : Bytes
  pub md5 : Bytes
  pub mime : Option Text

pub record FolderRef : Type 0 where
  pub name : Text
  pub root_hash : Bytes

pub data Payload : Type 0 where
  file_payload : FileRef → Payload
  folder_payload : FolderRef → Payload

-- What `fs::metadata` tells of a path.
pub record Metadata : Type 0 where
  pub is_file : Bool
  pub len : ℕ

pub data SourceCheck : Type 0 where
  unchanged : SourceCheck
  missing : SourceCheck
  changed : ℕ → ℕ → SourceCheck

-- `check_source`, by what `fs::metadata` answers for the path and the size in the `FileRef`.
unfoldable pub check_source : Option Metadata → ℕ → SourceCheck
check_source none size = missing
check_source (some md) size =
    if not md.is_file
    then missing
    else if not (eqb md.len size)
    then changed size md.len
    else unchanged

-- `Endpoint`, the sender's addresses.
pub record Endpoint : Type 0 where
  pub addrs : List Text
  pub coordinator : Option Text

abbrev pub ticket_version : ℕ
ticket_version = 2

abbrev pub ticket_prefix : Text
ticket_prefix = codes "mascara-ticket-v1:"

-- `crypto_box::SEALBYTES`
abbrev pub sealbytes : ℕ
sealbytes = 48

pub record Ticket : Type 0 where
  pub v : ℕ
  pub payload : Payload
  pub grant : Grant
  pub endpoint : Endpoint
  pub sender_card : Bytes
  pub link_assertion : Option LinkAssertion
  pub expires_at : Option ℕ
  pub nonce : Bytes

abbrev new_ticket : Payload → Endpoint → Bytes → Option LinkAssertion → Option ℕ → Bytes → Ticket
new_ticket payload endpoint sender_card link_assertion expires_at nonce = record {
  v = ticket_version;
  payload = payload;
  grant = download;
  endpoint = endpoint;
  sender_card = sender_card;
  link_assertion = link_assertion;
  expires_at = expires_at;
  nonce = nonce;
}

-- `Ticket::new_file`, `Ticket::new_folder`
unfoldable pub new_file :
    FileRef → Endpoint → Bytes → Option LinkAssertion → Option ℕ → Bytes → Ticket
new_file file_ref = new_ticket (file_payload file_ref)

unfoldable pub new_folder :
    FolderRef → Endpoint → Bytes → Option LinkAssertion → Option ℕ → Bytes → Ticket
new_folder folder_ref = new_ticket (folder_payload folder_ref)

kind_of : Payload → Kind
kind_of (file_payload file_ref) = file
kind_of (folder_payload folder_ref) = folder

file_of : Payload → Option FileRef
file_of (file_payload file_ref) = some file_ref
file_of (folder_payload folder_ref) = none

folder_of : Payload → Option FolderRef
folder_of (file_payload file_ref) = none
folder_of (folder_payload folder_ref) = some folder_ref

-- `Ticket::kind`, `Ticket::file_ref`, `Ticket::folder_ref`
unfoldable pub kind : Ticket → Kind
unfolding kind_of
kind t = kind_of t.payload

unfoldable pub file_ref : Ticket → Option FileRef
unfolding file_of
file_ref t = file_of t.payload

unfoldable pub folder_ref : Ticket → Option FolderRef
unfolding folder_of
folder_ref t = folder_of t.payload

-- What `open` and `seal` call outside the repository, by what they answer.
pub record Codecs : Type 0 where
  pub to_postcard : Ticket → Option Bytes
  pub from_postcard : Bytes → Option Ticket
  pub to_base64 : Bytes → Text
  pub from_base64 : Text → Option Bytes
  pub box_seal : Bytes → Bytes → Bytes → Option Bytes
  pub box_unseal : Bytes → Bytes → Option Bytes
  pub is_key : Bytes → Bool
  pub verify_strict : Bytes → Bytes → Bytes → Bool
  pub digest : Bytes → Bytes
  pub is_signature : Bytes → Bool
  pub is_signer : Bytes → Bool
  pub verify_schnorr : Bytes → Bytes → Bytes → Bool

module _ (lib : Codecs) where
  -- `Ticket::sender_card`
  unfoldable pub sender_card : Ticket → Result Card CoreError
  sender_card t = from_payload_bytes lib.is_key lib.verify_strict t.sender_card

  -- `crypto_seal`, by the randomness that it draws, the recipient's key and the plaintext.
  unfoldable pub crypto_seal : Bytes → Bytes → Bytes → Result Bytes CoreError
  crypto_seal random key plaintext =
      ok_or (lib.box_seal random key plaintext) (seal encryption_failed)

  -- `crypto_open`
  unfoldable pub crypto_open : Bytes → Bytes → Result Bytes CoreError
  crypto_open sealed secret =
      if ltb (length sealed) sealbytes
      then err (ticket (not_sealed (length sealed)))
      else ok_or (lib.box_unseal secret sealed) (ticket wrong_key_or_tampered)

  -- `Ticket::seal`
  unfoldable pub seal_ticket : Bytes → Ticket → Card → Result Text CoreError
  unfolding crypto_seal
  seal_ticket random t recipient = ok_or (lib.to_postcard t) (seal could_not_encode) >>= λ body.
      crypto_seal random recipient.sealing_pk body >>= λ sealed.
      ok (ticket_prefix ++ lib.to_base64 sealed)

  -- The link assertion, if there is one, against the sender's card.
  unfoldable pub check_assertion : Option LinkAssertion → Card → Bytes → Result (Unit {0}) CoreError
  check_assertion none card nonce = ok tt
  check_assertion (some a) card nonce =
      verify_link_assertion lib.digest lib.is_signature lib.is_signer lib.verify_schnorr a card
        nonce

  -- What `open` asks of a decoded ticket.
  unfoldable pub accept_ticket : Ticket → Result Ticket CoreError
  unfolding sender_card check_assertion
  accept_ticket t =
      if not (eqb t.v ticket_version)
      then err (ticket (unsupported_version t.v))
      else (sender_card t >>= λ card. check_assertion t.link_assertion card t.nonce >>= λ _. ok t)

  -- `Ticket::open`; `secret` is the identity's sealing secret.
  unfoldable pub open_ticket : Text → Bytes → Result Ticket CoreError
  unfolding crypto_open accept_ticket
  open_ticket s secret =
      ok_or (strip_prefix (trim s) ticket_prefix) (ticket missing_prefix) >>= λ b64.
      ok_or (lib.from_base64 (trim b64)) (ticket not_base64) >>= λ sealed.
      crypto_open sealed secret >>= λ body.
      ok_or (lib.from_postcard body) (ticket could_not_decode) >>= λ t. accept_ticket t
