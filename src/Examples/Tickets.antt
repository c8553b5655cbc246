-- ===== src/Examples/Tickets.antt =====
-- Tests of cards and tickets, at concrete codecs and keys.
use mascara.Common.{
  ℕ, suc, zero, ◌+◌, ◌≡◌, ◌↔◌, refl, ap, sym, ◌∙◌, Bool, true, Option, none, some, [], ◌∷◌, ◌++◌,
  map, ok, eqb, if◌then◌else◌, length, drop, arith, list_eq, nat_eq, list_beq, ◌≤◌,
}
use mascara.Common.Text.{Text, Bytes, codes, IsSolid, is_whitespace, trim, strip_prefix}
use mascara.Core.Card.{Card, payload_bytes, from_payload_bytes, card_hrp}
use mascara.Core.Card.Payload.{IsBound, from_payload_bytes_iff}
use mascara.Core.Ticket.{
  FileRef, FolderRef, file_payload, download, Endpoint, Ticket, Codecs, new_file, new_folder,
  file_ref, folder_ref, ticket_prefix, sealbytes, crypto_seal, seal_ticket, open_ticket,
}
use mascara.Core.Ticket.Opening.{
  IsAccepted, IsBase64, IsBox, open_ticket-IsAccepted, open_ticket-new_file,
}
use mascara.Core.Manifest.{Manifest, DecodeOutcome, into_manifest, decode_and_verify, encode}
use mascara.Core.Share.{
  FolderDescriptor, into_manifest_entry, manifest_of, verify_root_hash, into_folder_ticket,
}
use mascara.Core.Share.Minted.{into_folder_ticket-own, into_folder_ticket-verified}

abbrev pub zeros : ℕ → Bytes
zeros zero = []
zeros (suc n) = 0 ∷ zeros n

abbrev pub some_card : Card
some_card = record { transport_pk = zeros 32; sealing_pk = zeros 32; binding_sig = zeros 64 }

abbrev yes : Bytes → Bool
yes b = true

abbrev signed : Bytes → Bytes → Bytes → Bool
signed key message sig = true

pub some_card-IsBound : IsBound yes signed some_card
some_card-IsBound = record {
  transport_len = refl;
  sealing_len = refl;
  sig_len = refl;
  keyed = refl;
  signed = refl;
}

from_payload_bytes_iff_example :
    (from_payload_bytes yes signed (payload_bytes some_card) ≡ ok some_card)
    ↔ ((payload_bytes some_card ≡ payload_bytes some_card) × IsBound yes signed some_card)
from_payload_bytes_iff_example =
    from_payload_bytes_iff yes signed (payload_bytes some_card) some_card

-- A byte is written as so many letters A and a letter B.
abbrev tally : ℕ → Text → Text
tally zero s = 66 ∷ s
tally (suc n) s = 65 ∷ tally n s

abbrev write : Bytes → Text
write [] = []
write (b ∷ bytes) = tally b (write bytes)

abbrev read_from : ℕ → Text → Bytes
read_from n [] = []
read_from n (c ∷ s) =
    let stop = read_from 0 s in
    let more = read_from (suc n) s in if eqb c 66 then n ∷ stop else more

abbrev read : Text → Option Bytes
read s = some (read_from 0 s)

read_tally : (m n : ℕ) (s : Text) → read_from m (tally n s) ≡ (m + n) ∷ read_from 0 s
read_tally m zero s = ap (λ (k : ℕ). k ∷ read_from 0 s) (omega arith)
read_tally m (suc n) s =
    read_tally (suc m) n s ∙ ap (λ (k : ℕ). k ∷ read_from 0 s) {x = suc m + n} (omega arith)

read_write : (bytes : Bytes) → read_from 0 (write bytes) ≡ bytes
read_write [] = refl
read_write (b ∷ bytes) =
    read_tally 0 b (write bytes)
    ∙ ap (λ (k : ℕ). k ∷ read_from 0 (write bytes)) {x = 0 + b} (omega arith)
    ∙ ap (λ bs. b ∷ bs) (read_write bytes)

tally-IsSolid : (n : ℕ) (s : Text) → IsSolid s → IsSolid (tally n s)
unfolding is_whitespace
tally-IsSolid zero s h = (refl, h)
tally-IsSolid (suc n) s h = (refl, tally-IsSolid n s h)

write-IsSolid : (bytes : Bytes) → IsSolid (write bytes)
write-IsSolid [] = tt
write-IsSolid (b ∷ bytes) = tally-IsSolid b (write bytes) (write-IsSolid bytes)

abbrev prefixed : Text → Bytes → Text
prefixed hrp bytes = write bytes

abbrev unprefixed : Text → Option (Text × Bytes)
unprefixed s = some (card_hrp, read_from 0 s)

abbrev lower : Text → Text
lower s = s

abbrev song : FileRef
song = record { name = codes "a.txt"; size = 4; sha256 = 5 ∷ []; md5 = []; mime = none }

abbrev nowhere : Endpoint
nowhere = record { addrs = codes "1.2.3.4:5" ∷ []; coordinator = none }

abbrev pub song_ticket : Ticket
song_ticket = record {
  v = 2;
  payload = file_payload song;
  grant = download;
  endpoint = nowhere;
  sender_card = 1 ∷ zeros 128;
  link_assertion = none;
  expires_at = none;
  nonce = 7 ∷ [];
}

-- A box is its plaintext behind 48 zeros.
abbrev pub codecs : Codecs
codecs = record {
  to_postcard = λ t. some (3 ∷ []);
  from_postcard = λ b. some song_ticket;
  to_base64 = write;
  from_base64 = read;
  box_seal = λ random key plaintext. some (zeros 48 ++ plaintext);
  box_unseal = λ secret sealed. some (drop 48 sealed);
  is_key = yes;
  verify_strict = signed;
  digest = λ b. b;
  is_signature = yes;
  is_signer = yes;
  verify_schnorr = signed;
}

codecs-IsBase64 : IsBase64 codecs
codecs-IsBase64 = record { solid = write-IsSolid; read = λ bytes. ap some (read_write bytes) }

some_bytes : {a b : Bytes} → some a ≡ some b → a ≡ b
some_bytes h = cc (h)

codecs-IsBox : (key secret : Bytes) → IsBox codecs key secret
codecs-IsBox key secret = record {
  opens = λ random plaintext sealed h. ap (λ (s : Bytes). some (drop 48 s)) (sym (some_bytes h));
  longer = λ random plaintext sealed h. omega (arith, ap length (some_bytes h));
}

sealed_song :
    seal_ticket codecs [] song_ticket some_card ≡ ok (ticket_prefix ++ write (zeros 48 ++ 3 ∷ []))
unfolding seal_ticket crypto_seal
sealed_song = refl

abbrev sealed_text : Text
sealed_text = ticket_prefix ++ write (zeros 48 ++ 3 ∷ [])

open_ticket-new_file_example :
    open_ticket codecs sealed_text []
    ≡ ok (new_file song nowhere (payload_bytes some_card) none none (7 ∷ []))
unfolding new_file payload_bytes seal_ticket crypto_seal
open_ticket-new_file_example =
    open_ticket-new_file codecs [] song nowhere some_card none (7 ∷ []) some_card [] sealed_text
      codecs-IsBase64 (codecs-IsBox some_card.sealing_pk []) (λ body e. refl) some_card-IsBound refl

opened : open_ticket codecs sealed_text [] ≡ ok song_ticket
unfolding new_file payload_bytes
opened =
    open_ticket-new_file codecs [] song nowhere some_card none (7 ∷ []) some_card [] sealed_text
      codecs-IsBase64 (codecs-IsBox some_card.sealing_pk []) (λ body e. refl) some_card-IsBound
      sealed_song

open_ticket-IsAccepted_example :
    (b64 : Text) × (sealed : Bytes) × (body : Bytes) × (strip_prefix
        (trim sealed_text)
        ticket_prefix
      ≡ some b64)
    × (read (trim b64) ≡ some sealed)
    × (sealbytes ≤ length sealed)
    × (some (drop 48 sealed) ≡ some body)
    × (some song_ticket ≡ some song_ticket)
    × IsAccepted codecs song_ticket
open_ticket-IsAccepted_example = open_ticket-IsAccepted codecs sealed_text [] song_ticket opened

abbrev shared : FolderDescriptor
shared = record {
  name = codes "f";
  root_hash = 5 ∷ 6 ∷ [];
  entries =
      record { rel_path = codes "s/a"; size = 2; sha256 = 7 ∷ 8 ∷ []; md5 = []; mode = 420 } ∷ [];
  link_assertion = none;
}

abbrev to_bytes : Manifest → Option Bytes
to_bytes m = some (5 ∷ 6 ∷ [])

abbrev from_bytes : Bytes → Option Manifest
from_bytes b = some (manifest_of shared)

abbrev copy : Bytes → Bytes
copy b = b

abbrev folder_ticket : Ticket
folder_ticket =
    new_folder (record { name = codes "f"; root_hash = 5 ∷ 6 ∷ [] }) nowhere
      (payload_bytes some_card) none none (7 ∷ [])

minted :
    into_folder_ticket to_bytes from_bytes copy shared nowhere
      (payload_bytes some_card)
      none
      (7 ∷ [])
    ≡ ok (folder_ticket, 5 ∷ 6 ∷ [])
unfolding into_folder_ticket verify_root_hash encode list_beq
minted = refl

into_folder_ticket-own_example :
    (to_bytes (manifest_of shared) ≡ some (5 ∷ 6 ∷ []))
    × (copy (5 ∷ 6 ∷ []) ≡ shared.root_hash)
    × (folder_ref folder_ticket ≡ some (record { name = codes "f"; root_hash = 5 ∷ 6 ∷ [] }))
    × (file_ref folder_ticket ≡ none)
    × (folder_ticket.nonce ≡ 7 ∷ [])
    × (folder_ticket.expires_at ≡ none)
into_folder_ticket-own_example =
    into_folder_ticket-own to_bytes from_bytes copy shared nowhere (payload_bytes some_card) none
      (7 ∷ []) folder_ticket (5 ∷ 6 ∷ []) minted

into_folder_ticket-verified_example :
    (r : FolderRef) × (folder_ref folder_ticket ≡ some r)
    × (o : DecodeOutcome) × (decode_and_verify to_bytes from_bytes copy (5 ∷ 6 ∷ []) r.root_hash
        ≡ ok o)
    × ((into_manifest o).entries ≡ map into_manifest_entry shared.entries)
into_folder_ticket-verified_example =
    into_folder_ticket-verified to_bytes from_bytes copy shared nowhere (payload_bytes some_card)
      none (7 ∷ []) folder_ticket (5 ∷ 6 ∷ []) minted (λ b e. refl) (ground arith)
