-- ===== src/Hoard/Gate.antt =====
-- crates/hb-core/src/gate.rs: who may use the earlier transfer protocol. A token is the fields of its
-- event that are read; the check of its signature is a parameter.
pub mod Freshness
use mascara.Common.{
  ℕ, ◌+◌, ◌-◌, ◌^◌, min, Bool, true, false, not, ◌||◌, Option, none, some, List, Result, ok, err,
  ltb, eqb, if◌then◌else◌, ◌==◌, list_eq, nat_eq, any, ◌>>=◌,
}
use mascara.Common.Text.{Text, Bytes}

pub data HbError : Type 0 where
  invalid_signature : HbError
  wrong_kind : ℕ → HbError
  missing_version : HbError
  malformed_version : Text → HbError
  unsupported_version : ℕ → HbError
  binding_not_yet_valid binding_expired restricted_to_followers download_limit_reached : HbError
  request_too_large token_frame_too_large : ℕ → HbError

-- `TagU8` of tag_util.rs.
pub data TagU8 : Type 0 where
  value : ℕ → TagU8
  missing : TagU8
  malformed : Text → TagU8

pub record Token : Type 0 where
  pub kind : ℕ
  pub version : TagU8
  pub created_at : ℕ
  pub pubkey : Bytes

abbrev pub kind_xfer_token : ℕ
kind_xfer_token = 27492

abbrev pub token_v : ℕ
token_v = 1

abbrev pub future_skew_secs : ℕ
future_skew_secs = 300

-- `u64::saturating_add`
unfoldable pub saturating_add : ℕ → ℕ → ℕ
saturating_add a b = min (a + b) (2 ^ 64 - 1)

unfoldable pub check_version : TagU8 → Result (Unit {0}) HbError
check_version (value v) = if eqb v 0 || ltb token_v v then err (unsupported_version v) else ok tt
check_version missing = err missing_version
check_version (malformed s) = err (malformed_version s)

-- `verify_binding_token`
unfoldable pub verify_binding_token :
    (Token → Result (Unit {0}) HbError) → Token → ℕ → ℕ → Result Bytes HbError
unfolding saturating_add check_version
verify_binding_token verify_event t now max_age = verify_event t >>= λ _.
    if not (eqb t.kind kind_xfer_token)
    then err (wrong_kind t.kind)
    else (check_version t.version >>= λ _.
        if ltb (saturating_add now future_skew_secs) t.created_at
        then err binding_not_yet_valid
        else if ltb (saturating_add t.created_at max_age) now
        then err binding_expired
        else ok t.pubkey)

-- `follower_gate`
unfoldable pub follower_gate : Bool → List Bytes → Bytes → Result (Unit {0}) HbError
follower_gate require_follow followers requester =
    if not require_follow || any (λ f. f == requester) followers
    then ok tt
    else err restricted_to_followers

-- `check_request_len`
unfoldable pub check_request_len : ℕ → Result (Unit {0}) HbError
check_request_len declared = if ltb 65536 declared then err (request_too_large declared) else ok tt

-- `check_token_frame_len`
unfoldable pub check_token_frame_len : ℕ → Result (Unit {0}) HbError
check_token_frame_len declared =
    if ltb 8192 declared then err (token_frame_too_large declared) else ok tt

-- `check_download_limit`
unfoldable pub check_download_limit : ℕ → Option ℕ → Result (Unit {0}) HbError
check_download_limit current none = ok tt
check_download_limit current (some max) =
    if ltb max current then err download_limit_reached else ok tt
