-- ===== src/Lib.antt =====
-- A verification library for Mascara, a program that sends files to a chosen recipient over a direct
-- connection. A sender issues a ticket (a nonce sealed to the recipient's transport key), keeps it in a
-- registry, and serves the file or folder behind it to that recipient alone, until the ticket
-- expires or is revoked. Paths below are from the repository's root.
--
-- The parts and their files:
-- - Core/Registry: crates/mascara-core/src/registry.rs. `IssuedTickets` with `issue`, `revoke`,
--   `compact`, `is_valid` and `resolve_prefix`; Core/Registry/Saved has the methods of `Registry`.
-- - Core/History: crates/mascara-core/src/history.rs. `History` and `TransferState` with their
--   operations, and the methods of `HistoryLog` (`log_completed` and so on).
-- - Core/Disk and Core/Store: `atomic_write`, the traits `IssuedStore` and `HistoryStore` as the record
--   `Backend`, and `FileStore`. A file system is a map from paths to bytes whose calls may fail as the
--   environment decides. Core/Store/Laws has what is asked of a store (`IsFaithful`).
-- - Core/Manifest: crates/mascara-core/src/manifest.rs. Core/Ticket: ticket.rs (`Ticket` with `seal` and
--   `open`) and source.rs. Core/Card: card.rs and assertion.rs. Core/Share: share.rs.
-- - Core/Keystore: crates/mascara-core/src/keystore.rs and identity.rs. A write is a list of calls on the
--   directory of the identity; each call may fail, and the process may stop between two.
-- - Core/ContentCheck: crates/mascara-core/src/content_check.rs.
-- - Net/PathGuard: `safe_filename` and `safe_rel_path` of crates/mascara-net/src/engine.rs.
-- - Net/Response and Net/Pull: `pull_file` of engine.rs with `compute_partial_state`,
--   `receive_into_part` and `unique_destination`. The destination is a map from names to contents.
-- - Net/Folder: `pull_folder` of engine.rs with `prepare_entry_dest` and `pull_entry`. The destination is
--   a map from resolved directories to their files; where a directory of a manifest resolves, links
--   included, is a parameter, and the directories that it makes are listed.
-- - Net/Fetch: `fetch_manifest` of engine.rs with its cache, and `remove_entry_partials_on_cancel`.
-- - Net/Wire: the frames of a request and of a reply, as engine.rs and listener.rs write and read them.
-- - Net/Dialer: crates/mascara-net/src/dialer.rs, consent.rs and `endpoint_addr_from_ticket` of
--   endpoint.rs. A connection is what its streams answer, which Net/Pull/Complete and Net/Fetch/Served
--   fill with the handler of Net/Listener.
-- - Net/Listener: crates/mascara-net/src/listener.rs. `authorize` and the limiter stand in the parent,
--   the offers in Offers, and `handle_request` with all that it calls in Serve.
-- - Cli: crates/mascara-cli/src/main.rs, the decisions of `recv` (`checked_total`, `record_started`, the
--   entries that are held).
-- - Hoard/Gate: crates/hb-core/src/gate.rs, of the earlier transfer protocol.
-- - Examples: tests, each property at concrete inputs.
--
-- How state and errors are written: a method with `&mut self` or a store returns its result and the
-- state it leaves; `Result` has `ok` and `err`; a message is a constructor for its template with the
-- values put into it. Text and bytes are lists of numbers, a time is a natural number and only its
-- order counts. Loops are structural recursion over a list, but for two on fuel. The loop that reads a
-- body takes at most as many turns as bytes it awaits. The search for a free name tries as many numbers
-- as its fuel: of more numbers than the directory has files, the partial one included, one gives a
-- free name; for a pull of a folder more than one plus the names that the destination has plus two
-- for each entry are enough. The attempts of a remote wrap at 2 ^ 32.
--
-- Parameters, since they are not part of the repository: serde and postcard, SHA-256, base64, bech32m,
-- the sealed box and the signatures, hex, lower case, durations, the infer crate, the QUIC endpoint with
-- its cancellation, and the calls on the local file system (metadata, canonical paths, contents). The
-- record `Codecs` of Core/Ticket holds those that a ticket needs.
--
-- Not modelled: symbolic links in the destination of a single file; what comes of writing through a
-- link in that of a folder (a parameter); calls that never return; progress callbacks; failures while
-- a request is written; the JSON file of the offers and the accept loop beyond the admission of a
-- connection; the construction of an endpoint; the earlier code in mascara-transfer; the rest of the
-- command line; the test driver mascara-it; the rest of hb-core and hb-net, which are copies of
-- another project's crates; and vendor/wmi. They are input and output over libraries, code that the
-- modelled parts replace, or left for later.
pub mod Cli
pub mod Common
pub mod Core
pub mod Examples
pub mod Hoard
pub mod Net
