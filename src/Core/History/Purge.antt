-- ===== src/Core/History/Purge.antt =====
-- The auto-purge of history.rs.
use mascara.Common.{
  ℕ, ◌<◌, ◌≡◌, true, false, Option, none, some, List, [], ◌∷◌, arith, filter, Option-cases,
  Bool-cases, inl, inr, ◌⊎◌,
}
use mascara.Core.History.{
  History, HistoryRecord, HistoryConfig, TransferState, in_progress, partial, completed, is_kept,
  state_is_kept, purge_older_than,
}

module _ {Duration : Type 0} (before : ℕ → Duration → Option ℕ) where
  -- The ways in which a purge returns.
  pub purge-cases :
      (h u : History) (now : ℕ) (config : HistoryConfig Duration)
      → purge_older_than before h now config ≡ some u
      → ((config.retention ≡ none) × (u ≡ h))
        ⊎ ((window : Duration) × (cutoff : ℕ) × (config.retention ≡ some window)
            × (before now window ≡ some cutoff)
            × (u ≡ record h { records = filter (is_kept cutoff) h.records }))
  unfolding purge_older_than
  purge-cases h u now config e = elim (Option-cases config.retention) [
    | inl off ↦ inl (off, ground (arith, off))
    | inr (window, on) ↦ elim (Option-cases (before now window)) [
      | inl over ↦ absurd (ground (arith, on, over))
      | inr (cutoff, c) ↦ inr (window, cutoff, on, c, ground (arith, on, c))
    ]
  ]

-- A completed transfer that is older than the cutoff.
abbrev pub IsOld : ℕ → TransferState → Type 0
IsOld cutoff (completed at) = at < cutoff
IsOld cutoff (in_progress from at) = ⊥
IsOld cutoff (partial from at bytes) = ⊥

-- The second list is the first without its old records, in order.
pub data Thinned (cutoff : ℕ) : List HistoryRecord → List HistoryRecord → Type 0 where
  nothing : Thinned cutoff [] []
  keeps :
      {rs ks : List HistoryRecord} (r : HistoryRecord)
      → ¬ IsOld cutoff r.state
      → Thinned cutoff rs ks
      → Thinned cutoff (r ∷ rs) (r ∷ ks)
  drops :
      {rs ks : List HistoryRecord} (r : HistoryRecord)
      → IsOld cutoff r.state
      → Thinned cutoff rs ks
      → Thinned cutoff (r ∷ rs) ks

kept_not-IsOld : (cutoff : ℕ) (s : TransferState) → state_is_kept cutoff s ≡ true → ¬ IsOld cutoff s
kept_not-IsOld cutoff (completed at) h old = ground arith
kept_not-IsOld cutoff (in_progress from at) h old = old
kept_not-IsOld cutoff (partial from at bytes) h old = old

IsOld-of_not_kept :
    (cutoff : ℕ) (s : TransferState) → state_is_kept cutoff s ≡ false → IsOld cutoff s
IsOld-of_not_kept cutoff (completed at) h = ground arith
IsOld-of_not_kept cutoff (in_progress from at) h = absurd (cc)
IsOld-of_not_kept cutoff (partial from at bytes) h = absurd (cc)

filter-Thinned :
    (cutoff : ℕ) (rs : List HistoryRecord) → Thinned cutoff rs (filter (is_kept cutoff) rs)
filter-Thinned cutoff [] = nothing
filter-Thinned cutoff (r ∷ rs) = elim (Bool-cases (is_kept cutoff r)) [
  | inl t ↦ rw t (keeps r (kept_not-IsOld cutoff r.state t) (filter-Thinned cutoff rs))
  | inr f ↦ rw f (drops r (IsOld-of_not_kept cutoff r.state f) (filter-Thinned cutoff rs))
]

module _ {Duration : Type 0} (before : ℕ → Duration → Option ℕ) where
  -- A purge without a retention window changes nothing. With one, it drops the transfers completed
  -- before the cutoff and nothing else; it never drops a resumable transfer.
  pub purge_older_than-Thinned :
      (h u : History) (now : ℕ) (config : HistoryConfig Duration)
      → purge_older_than before h now config ≡ some u
      → ((config.retention ≡ none) × (u ≡ h))
        ⊎ ((window : Duration) × (cutoff : ℕ) × (config.retention ≡ some window)
            × (before now window ≡ some cutoff)
            × Thinned cutoff h.records u.records)
  purge_older_than-Thinned h u now config e = elim (purge-cases before h u now config e) [
    | inl off ↦ inl off
    | inr (window, cutoff, on, c, k) ↦
        inr (window, cutoff, on, c, rw k (filter-Thinned cutoff h.records))
  ]
