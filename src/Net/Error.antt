-- ===== src/Net/Error.antt =====
-- crates/mascara-net/src/error.rs. A message is modelled by its template and the values put into it.
use mascara.Common.{ℕ}
use mascara.Common.Text.{Text}
use mascara.Core.Error.{CoreError}

-- Why engine.rs refuses a name.
pub data PathFault : Type 0 where
  empty_name relative_reference separator rooted empty_component : PathFault
  drive_letter colon reserved_name trailing_dot_or_space not_plain : PathFault

pub data ProtocolFault : Type 0 where
  unsafe_name : PathFault → ProtocolFault
  error_too_large : ℕ → ProtocolFault
  offset_beyond_size : ℕ → ℕ → ProtocolFault
  inconsistent_response : ℕ → ℕ → ProtocolFault
  manifest_too_large : ℕ → ProtocolFault
  outside_destination symlink_at_destination no_leaf_name : ProtocolFault
  malformed_offers : ProtocolFault
  unsupported_offers : ℕ → ProtocolFault
  manifest_mismatch request_not_encoded : ProtocolFault
  invalid_sender_card invalid_transport_key invalid_address no_addresses wrong_flow : ProtocolFault

pub data LocalFault : Type 0 where
  cannot_append cannot_create cannot_write cannot_flush cannot_place cannot_resolve : LocalFault

pub data NetError : Type 0 where
  core : CoreError → NetError
  io : NetError
  local_io : LocalFault → NetError
  protocol : ProtocolFault → NetError
  endpoint connection : NetError
  refused : Text → NetError
  hash_mismatch : NetError
  connection_lost : NetError
  cancelled : NetError
