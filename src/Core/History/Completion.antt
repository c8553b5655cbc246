-- ===== src/Core/History/Completion.antt =====
-- The sender's endpoint is gone from history.rs the moment a transfer completes, and stays gone.
use mascara.Common.{
  ℕ, ◌≡◌, ◌≢◌, refl, ◌∙◌, Option, none, some, arith, eq_refl, list_eq, nat_eq, any, find,
  Bool-cases, Option-cases, inl, inr,
}
use mascara.Common.Keyed.{Distinct, append-Distinct, update-Distinct, filter-Distinct}
use mascara.Common.Text.{Text, Bytes}
use mascara.Core.History.{
  TransferId, completed, HistoryRecord, History, no_history, has_id, record_in_progress,
  record_partial, record_completed, purge_all, set_state, partial_of, purge_older_than,
  HistoryConfig, is_kept,
}
use mascara.Core.History.Purge.{purge-cases}
use mascara.Core.History.Origin.{
  known_origin-started_other, known_origin, known_origin-completed, known_origin-partial,
  known_origin-purged,
}

abbrev pub HasDistinctIds : History → Type 0
HasDistinctIds h = Distinct (λ r. r.id) h.records

started-HasDistinctIds :
    (h : History) (i : TransferId) (name : Text) (size : ℕ) (sha256 md5 : Bytes) (from : Text)
    (at : ℕ)
    → HasDistinctIds h
    → HasDistinctIds (record_in_progress h i name size sha256 md5 from at).1
unfolding record_in_progress
started-HasDistinctIds h i name size sha256 md5 from at d =
    elim (Bool-cases (any (has_id i) h.records)) [
      | inl old ↦ rw old d
      | inr new ↦ rw new (append-Distinct (λ (r : HistoryRecord). r.id) h.records _ new d)
    ]

partial-HasDistinctIds :
    (h : History) (i : TransferId) (bytes : ℕ)
    → HasDistinctIds h
    → HasDistinctIds (record_partial h i bytes).1
unfolding record_partial
partial-HasDistinctIds h i bytes d = elim (Option-cases (find (has_id i) h.records)) [
  | inl e ↦ rw (e, record_partial) d
  | inr (r, e) ↦ elim (Option-cases (partial_of r.state bytes)) [
    | inl k ↦ rw (e, record_partial) (rw k d)
    | inr (s, k) ↦
        rw (e, record_partial)
          (rw k
            (update-Distinct (λ (r : HistoryRecord). r.id) (set_state s) (λ r. refl) i h.records d))
  ]
]

completed-HasDistinctIds :
    (h : History) (i : TransferId) (at : ℕ)
    → HasDistinctIds h
    → HasDistinctIds (record_completed h i at).1
unfolding record_completed
completed-HasDistinctIds h i at d = elim (Option-cases (find (has_id i) h.records)) [
  | inl e ↦ rw (e, record_completed) d
  | inr (r, e) ↦
      rw (e, record_completed)
        (update-Distinct (λ (r : HistoryRecord). r.id) (set_state (completed at)) (λ r. refl) i
          h.records d)
]

module _ {Duration : Type 0} (before : ℕ → Duration → Option ℕ) where
  purged-HasDistinctIds :
      (h u : History) (now : ℕ) (config : HistoryConfig Duration)
      → purge_older_than before h now config ≡ some u
      → HasDistinctIds h
      → HasDistinctIds u
  purged-HasDistinctIds h u now config e d = elim (purge-cases before h u now config e) [
    | inl (_, k) ↦ rw k d
    | inr (_, cutoff, _, _, k) ↦
        rw k (filter-Distinct (λ (r : HistoryRecord). r.id) (is_kept cutoff) h.records d)
  ]

  -- The histories that the operations produce from the empty one.
  pub data Reach : History → Type 0 where
    empty : Reach no_history
    started :
        {u : History} (j : TransferId) (name : Text) (size : ℕ) (sha256 md5 : Bytes) (from : Text)
        (at : ℕ)
        → Reach u
        → Reach (record_in_progress u j name size sha256 md5 from at).1
    advanced :
        {u : History} (j : TransferId) (bytes : ℕ) → Reach u → Reach (record_partial u j bytes).1
    finished : {u : History} (j : TransferId) (at : ℕ) → Reach u → Reach (record_completed u j at).1
    purged :
        {u u' : History} (now : ℕ) (config : HistoryConfig Duration)
        → purge_older_than before u now config ≡ some u'
        → Reach u
        → Reach u'
    cleared : {u : History} → Reach u → Reach (purge_all u)

  Reach-HasDistinctIds : {h : History} → Reach h → HasDistinctIds h
  unfolding purge_all
  Reach-HasDistinctIds empty = tt
  Reach-HasDistinctIds (started {u} j name size sha256 md5 from at r) =
      started-HasDistinctIds u j name size sha256 md5 from at (Reach-HasDistinctIds r)
  Reach-HasDistinctIds (advanced {u} j bytes r) =
      partial-HasDistinctIds u j bytes (Reach-HasDistinctIds r)
  Reach-HasDistinctIds (finished {u} j at r) =
      completed-HasDistinctIds u j at (Reach-HasDistinctIds r)
  Reach-HasDistinctIds (purged {u} {u'} now config e r) =
      purged-HasDistinctIds u u' now config e (Reach-HasDistinctIds r)
  Reach-HasDistinctIds (cleared r) = tt

  -- Everything that can happen to a history but the start of transfer `i`.
  pub data LaterWithout (i : TransferId) (h : History) : History → Type 0 where
    same : LaterWithout i h h
    started :
        {u : History} (j : TransferId) (name : Text) (size : ℕ) (sha256 md5 : Bytes) (from : Text)
        (at : ℕ)
        → j ≢ i
        → LaterWithout i h u
        → LaterWithout i h (record_in_progress u j name size sha256 md5 from at).1
    advanced :
        {u : History} (j : TransferId) (bytes : ℕ)
        → LaterWithout i h u
        → LaterWithout i h (record_partial u j bytes).1
    finished :
        {u : History} (j : TransferId) (at : ℕ)
        → LaterWithout i h u
        → LaterWithout i h (record_completed u j at).1
    purged :
        {u u' : History} (now : ℕ) (config : HistoryConfig Duration)
        → purge_older_than before u now config ≡ some u'
        → LaterWithout i h u
        → LaterWithout i h u'
    cleared : {u : History} → LaterWithout i h u → LaterWithout i h (purge_all u)

  Forgotten :
      (i : TransferId) {h u : History}
      → HasDistinctIds h × (known_origin h i ≡ none)
      → LaterWithout i h u
      → HasDistinctIds u × (known_origin u i ≡ none)
  unfolding purge_all known_origin
  Forgotten i k same = k
  Forgotten i k (started {u} j name size sha256 md5 from at other l) =
      let (d, e) = Forgotten i k l in
      (
        started-HasDistinctIds u j name size sha256 md5 from at d,
        known_origin-started_other u j i name size sha256 md5 from at other ∙ e,
      )
  Forgotten i k (advanced {u} j bytes l) =
      let (d, e) = Forgotten i k l in
      (partial-HasDistinctIds u j bytes d, known_origin-partial u j i bytes ∙ e)
  Forgotten i k (finished {u} j at l) =
      let (d, e) = Forgotten i k l in
      (completed-HasDistinctIds u j at d, known_origin-completed u j i at ∙ rw e (ground arith))
  Forgotten i k (purged {u} {u'} now config p l) =
      let (d, e) = Forgotten i k l in
      (
        purged-HasDistinctIds u u' now config p d,
        known_origin-purged before u u' i now config d p ∙ e,
      )
  Forgotten i k (cleared l) = (tt, refl)

  -- In every history that the operations produce: once transfer `i` is recorded as completed, its
  -- sender's endpoint is unknown, and stays so whatever is recorded or purged later, short of a new
  -- start of a transfer under that id.
  pub completion_forgets_origin :
      (h u : History) (i : TransferId) (at : ℕ)
      → Reach h
      → LaterWithout i (record_completed h i at).1 u
      → known_origin u i ≡ none
  completion_forgets_origin h u i at r l =
      (Forgotten i
        (
          completed-HasDistinctIds h i at (Reach-HasDistinctIds r),
          known_origin-completed h i i at ∙ rw (eq_refl i) refl,
        )
        l).1
