-- ===== src/Core/History/Origin.antt =====
-- Which records of history.rs hold the sender's endpoint.
use mathlib.Core.Option
use mascara.Common.{
  eq_false, ◌≢◌, ℕ, ◌≡◌, ◌≢◌, refl, Option, none, some, ok, arith, if◌then◌else◌, ◌==◌, eq_iff,
  list_eq, nat_eq, any, find, update_first, find-append, any-find, Bool-cases, Option-cases, inl,
  inr,
}
use mascara.Common.Keyed.{find-update, find-has, find-filter, Distinct}
use mascara.Common.Text.{Text, Bytes}
use mascara.Core.History.{
  TransferId, TransferState, in_progress, partial, completed, HistoryRecord, History, origin,
  has_id, record_in_progress, record_partial, record_completed, set_state, purge_older_than,
  HistoryConfig, is_kept,
}

-- The endpoint on record for a transfer.
unfoldable pub known_origin : History → TransferId → Option Text
known_origin h i = elim (find (has_id i) h.records) [ none ↦ none | some r ↦ origin r.state ]

find-set_state :
    (h : History) (n m : TransferId) (s : TransferState)
    → find (has_id m) (update_first (has_id n) (set_state s) h.records) ≡ (
        if n == m
        then Option.map (set_state s) (find (has_id m) h.records)
        else find (has_id m) h.records)
find-set_state h n m s =
    find-update (λ (r : HistoryRecord). r.id) (set_state s) (λ r. refl) n m h.records

-- Completion drops the endpoint of the completed transfer and keeps that of every other.
pub known_origin-completed :
    (h : History) (i j : TransferId) (at : ℕ)
    → known_origin (record_completed h i at).1 j ≡ (if i == j then none else known_origin h j)
unfolding known_origin record_completed origin
known_origin-completed h i j at = ground (
  arith,
  find-set_state h i j (completed at),
  eq_iff i j,
  find-has (λ (r : HistoryRecord). r.id) i j h.records,
)

partial_keeps :
    (h : History) (i j : TransferId) (r : HistoryRecord) (bytes : ℕ) (s : TransferState)
    → find (has_id i) h.records ≡ some r
    → r.state ≡ s
    → known_origin (record_partial h i bytes).1 j ≡ known_origin h j
unfolding known_origin record_partial origin
partial_keeps h i j r bytes (in_progress from at) e k = ground (
  arith,
  e,
  k,
  find-set_state h i j (partial from at bytes),
  eq_iff i j,
  find-has (λ (r : HistoryRecord). r.id) i j h.records,
)
partial_keeps h i j r bytes (partial from at old) e k = ground (
  arith,
  e,
  k,
  find-set_state h i j (partial from at bytes),
  eq_iff i j,
  find-has (λ (r : HistoryRecord). r.id) i j h.records,
)
partial_keeps h i j r bytes (completed at) e k = ground (arith, e, k)

-- A partial download keeps every endpoint.
pub known_origin-partial :
    (h : History) (i j : TransferId) (bytes : ℕ)
    → known_origin (record_partial h i bytes).1 j ≡ known_origin h j
unfolding known_origin record_partial origin
known_origin-partial h i j bytes = elim (Option-cases (find (has_id i) h.records)) [
  | inl e ↦ ground (arith, e)
  | inr (r, e) ↦ partial_keeps h i j r bytes r.state e refl
]

-- A transfer whose start succeeded is on record with its sender's endpoint; no other endpoint
-- changes.
pub known_origin-started :
    (h : History) (i j : TransferId) (name : Text) (size : ℕ) (sha256 md5 : Bytes) (from : Text)
    (at : ℕ)
    → (record_in_progress h i name size sha256 md5 from at).0 ≡ ok tt
    → known_origin (record_in_progress h i name size sha256 md5 from at).1 j
      ≡ (if i == j then some from else known_origin h j)
unfolding known_origin record_in_progress origin
known_origin-started h i j name size sha256 md5 from at e =
    elim (Bool-cases (any (has_id i) h.records)) [
      | inl old ↦ ground (arith, old)
      | inr new ↦
          rw (new, known_origin, find-append (has_id j) h.records)
            (ground (
              arith,
              any-find (has_id i) h.records new,
              find-has (λ (r : HistoryRecord). r.id) i j h.records,
            ))
    ]

pub known_origin-started_other :
    (h : History) (i j : TransferId) (name : Text) (size : ℕ) (sha256 md5 : Bytes) (from : Text)
    (at : ℕ)
    → i ≢ j
    → known_origin (record_in_progress h i name size sha256 md5 from at).1 j ≡ known_origin h j
unfolding known_origin record_in_progress origin
known_origin-started_other h i j name size sha256 md5 from at other =
    elim (Bool-cases (any (has_id i) h.records)) [
      | inl old ↦ ground (arith, old)
      | inr new ↦
          rw (new, known_origin, find-append (has_id j) h.records)
            (ground (arith, eq_false i j other))
    ]

module _ {Duration : Type 0} (before : ℕ → Duration → Option ℕ) where
  -- With distinct ids an auto-purge forgets no endpoint.
  pub known_origin-purged :
      (h u : History) (j : TransferId) (now : ℕ) (config : HistoryConfig Duration)
      → Distinct (λ r. r.id) h.records
      → purge_older_than before h now config ≡ some u
      → known_origin u j ≡ known_origin h j
  unfolding known_origin purge_older_than origin
  known_origin-purged h u j now config d e = elim (Option-cases config.retention) [
    | inl off ↦ ground (arith, off)
    | inr (window, on) ↦ elim (Option-cases (before now window)) [
      | inl over ↦ ground (arith, on, over)
      | inr (cutoff, c) ↦
          ground
            (arith, on, c, find-filter (λ (r : HistoryRecord). r.id) (is_kept cutoff) j h.records d)
    ]
  ]
