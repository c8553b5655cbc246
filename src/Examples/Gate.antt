-- ===== src/Examples/Gate.antt =====
-- Tests of the gate, at a concrete token.
use mascara.Common.{◌+◌, ◌≤◌, ◌≡◌, ◌↔◌, Result, ok, [], ◌∷◌, arith}
use mascara.Hoard.Gate.{HbError, value, Token, kind_xfer_token, verify_binding_token}
use mascara.Hoard.Gate.Freshness.{verify_binding_token_iff}

abbrev signed : Token → Result (Unit {0}) HbError
signed t = ok tt

abbrev token : Token
token = record { kind = 27492; version = value 1; created_at = 1000; pubkey = 7 ∷ [] }

verify_binding_token_iff_example : (verify_binding_token signed token 1060 120 ≡ ok (7 ∷ [])) ↔ (
    (signed token ≡ ok tt)
    × (token.kind ≡ kind_xfer_token)
    × (token.version ≡ value 1)
    × (token.created_at ≤ 1060 + 300)
    × (1060 ≤ token.created_at + 120)
    × (7 ∷ [] ≡ token.pubkey))
verify_binding_token_iff_example =
    verify_binding_token_iff signed token 1060 120 (7 ∷ []) (ground arith) (ground arith)
