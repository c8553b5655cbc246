-- ===== src/Examples/Dialing.antt =====
-- Tests of a pull from a ticket, at a concrete connection.
use mascara.Common.{
  ◌≡◌, ◌⊎◌, refl, Bool, true, Option, none, some, [], ◌∷◌, ◌++◌, ok, err, list_eq, nat_eq, list_beq,
}
use mascara.Common.Text.{Text, Bytes, codes}
use mascara.Core.Card.{from_payload_bytes}
use mascara.Core.Ticket.{FileRef, Ticket, file_payload, download, file_ref, sender_card}
use mascara.Net.Error.{cancelled}
use mascara.Net.PathGuard.{safe_filename}
use mascara.Net.Pull.{Dir}
use mascara.Net.Pull.Landing.{IsLanded}
use mascara.Net.Fetch.{remove_partial_on_cancel}
use mascara.Net.Dialer.{
  ConsentAck, acknowledge_ip_exposure, EndpointAddr, Connection, application_closed, still_open,
  endpoint_addr_from_ticket, dial, classify_io_failure, settle_dial, pull_over, pull,
}
use mascara.Net.Dialer.Pinned.{IsPinned, pull-IsPinned}
use mascara.Net.Dialer.Cancel.{IsDiscarded, pull-failed}
use mascara.Examples.Tickets.{codecs, zeros}
use mascara.Examples.Pulling.{
  same, digit, fine, wanted, half, honest, breaking, landed, longer, pulled, interrupted,
}

abbrev ticket : Ticket
ticket = record {
  v = 2;
  payload = file_payload wanted;
  grant = download;
  endpoint = record { addrs = codes "1.2.3.4:5" ∷ []; coordinator = none };
  sender_card = 1 ∷ zeros 128;
  link_assertion = none;
  expires_at = none;
  nonce = [];
}

abbrev any_key : Bytes → Bool
any_key k = true

abbrev any_addr : Text → Bool
any_addr a = true

-- The remote has the dialed key.
abbrev good_connection : Connection
good_connection = record { remote_id = zeros 32; opens = true; closing = still_open }

-- The peer closes with the code of a cancellation.
abbrev cut_connection : Connection
cut_connection = record { remote_id = zeros 32; opens = true; closing = application_closed 1 }

abbrev connect_well : EndpointAddr → Option Connection
connect_well a = some good_connection

abbrev connect_cut : EndpointAddr → Option Connection
connect_cut a = some cut_connection

ack : ConsentAck
ack = acknowledge_ip_exposure tt

dialed_well : dial codecs any_key any_addr connect_well ticket ≡ ok good_connection
unfolding dial endpoint_addr_from_ticket sender_card from_payload_bytes list_beq
dialed_well = refl

dialed_cut : dial codecs any_key any_addr connect_cut ticket ≡ ok cut_connection
unfolding dial endpoint_addr_from_ticket sender_card from_payload_bytes list_beq
dialed_cut = refl

pulled_well :
    pull same digit 3 same codecs any_key any_addr connect_well fine (λ c. honest) ticket ack half
    ≡ some (ok (codes "a.txt"), landed)
unfolding pull file_ref pull_over settle_dial
pulled_well = rw (pull, dialed_well, pulled) refl

pull-IsPinned_example :
    (w : FileRef) × (conn : Connection) × (name : Text) × (file_ref ticket ≡ some w)
    × IsPinned codecs any_key any_addr connect_well ticket conn
    × (safe_filename w.name ≡ ok name)
    × IsLanded same digit 3 same half w name (codes "a.txt") landed
pull-IsPinned_example =
    pull-IsPinned same digit 3 same codecs any_key any_addr connect_well fine (λ c. honest) ticket
      ack half (codes "a.txt") landed pulled_well

abbrev discarded : Dir
discarded = remove_partial_on_cancel true (codes "a.txt") longer

pulled_cut :
    pull same digit 3 same codecs any_key any_addr connect_cut fine (λ c. breaking) ticket ack half
    ≡ some (err cancelled, discarded)
unfolding pull file_ref pull_over settle_dial classify_io_failure
pulled_cut = rw (pull, dialed_cut, interrupted) refl

pull-failed_example :
    (discarded ≡ half)
    ⊎ ((w : FileRef) × (name : Text) × (file_ref ticket ≡ some w)
        × (safe_filename w.name ≡ ok name)
        × IsDiscarded fine (name ++ codes ".part") cancelled half discarded)
pull-failed_example =
    pull-failed same digit 3 same codecs any_key any_addr connect_cut fine (λ c. breaking) ticket
      ack half cancelled discarded pulled_cut
