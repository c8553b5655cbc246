-- ===== src/Core/Registry/Saved.antt =====
-- `Registry<S>` of registry.rs: each call loads, changes and stores the whole registry.
use mascara.Common.{ℕ, Bool, List, Result, ok, err, list_eq, nat_eq, ◌>>=◌}
use mascara.Common.Text.{Text, Bytes}
use mascara.Core.Error.{CoreError}
use mascara.Core.Store.{Backend, save, transact}
use mascara.Core.Registry.{
  Nonce, IssuedRecord, IssuedTickets, issue, revoke, compact, is_valid, resolve_prefix,
}

abbrev pub revoke_resolved :
    IssuedTickets → Result Nonce CoreError → Result Nonce CoreError × IssuedTickets
revoke_resolved t (err e) = (err e, t)
revoke_resolved t (ok nonce) =
    let (result, t') = revoke t nonce in elim result [ ok _ ↦ (ok nonce, t') | err e ↦ (err e, t') ]

module _ {W : Type 0} (b : Backend IssuedTickets W) where
  -- `Registry::issue`
  unfoldable pub saved_issue : W → IssuedRecord → Result (Unit {0}) CoreError × W
  saved_issue w r = transact b (λ t. issue t r) w

  -- `Registry::revoke`
  unfoldable pub saved_revoke : W → Nonce → Result Bool CoreError × W
  saved_revoke w n = transact b (λ t. revoke t n) w

  -- `Registry::revoke_by_prefix`
  unfoldable pub saved_revoke_by_prefix :
      (Text → Text) → (Bytes → Text) → W → Text → Result Nonce CoreError × W
  saved_revoke_by_prefix to_lowercase hex_encode w prefix =
      transact b (λ t. revoke_resolved t (resolve_prefix to_lowercase hex_encode t prefix)) w

  -- `Registry::compact`
  unfoldable pub saved_compact : W → ℕ → Result (Unit {0}) CoreError × W
  saved_compact w now = transact b (λ t. (ok tt, compact t now)) w

  -- `Registry::list`
  unfoldable pub saved_list : W → Result (List IssuedRecord) CoreError
  saved_list w = do t ← b.load w; ok t.tickets

  -- `Registry::is_valid`
  unfoldable pub saved_is_valid : W → Nonce → ℕ → Result Bool CoreError
  saved_is_valid w n now = do t ← b.load w; ok (is_valid t n now)

  -- Two processes on one file: `issue` loads, then `revoke` runs whole, then `issue` stores.
  unfoldable pub issue_around_revoke :
      W → IssuedRecord → Nonce → Result (Unit {0}) CoreError × Result Bool CoreError × W
  unfolding saved_revoke
  issue_around_revoke w r n = elim (b.load w) [
    | err e ↦ let (revoked, w') = saved_revoke w n in (err e, revoked, w')
    | ok stale ↦
        let (revoked, w') = saved_revoke w n in
        let (issued, w'') = save b w' (issue stale r) in (issued, revoked, w'')
  ]
