-- ===== src/Core/History.antt =====
-- crates/mascara-core/src/history.rs: the transfer history, a state machine over a list of records.
-- chrono's durations and `DateTime - Duration` are parameters; `none` is its panic on overflow.
pub mod Origin
pub mod Completion
pub mod Purge
use mascara.Common.{
  ℕ, Bool, true, false, not, Option, none, some, List, [], ◌∷◌, ◌++◌, Result, ok, err, leb,
  if◌then◌else◌, list_eq, nat_eq, any, filter, find, update_first, ◌>>=◌,
}
use mascara.Common.Keyed.{has}
use mascara.Common.Text.{Text, Bytes}
use mascara.Core.Error.{
  CoreError, history, panicked, already_recorded, no_such_transfer, already_completed,
}
use mascara.Core.Store.{Backend, transact}

abbrev pub history_version : ℕ
history_version = 1

-- 16 bytes.
abbrev pub TransferId : Type 0
TransferId = Bytes

pub data TransferState : Type 0 where
  in_progress : (origin : Text) (started_at : ℕ) → TransferState
  partial : (origin : Text) (started_at bytes_so_far : ℕ) → TransferState
  completed : (completed_at : ℕ) → TransferState

-- `TransferState::is_resumable`
unfoldable pub is_resumable : TransferState → Bool
is_resumable (in_progress origin started_at) = true
is_resumable (partial origin started_at bytes_so_far) = true
is_resumable (completed completed_at) = false

-- `TransferState::origin`
unfoldable pub origin : TransferState → Option Text
origin (in_progress from started_at) = some from
origin (partial from started_at bytes_so_far) = some from
origin (completed completed_at) = none

pub record HistoryRecord : Type 0 where
  pub id : TransferId
  pub name : Text
  pub size : ℕ
  pub sha256 : Bytes
  pub md5 : Bytes
  pub state : TransferState

pub record History : Type 0 where
  pub v : ℕ
  pub records : List HistoryRecord

-- `History::default`
abbrev pub no_history : History
no_history = record { v = history_version; records = [] }

-- The closure `|r| r.id == id`.
abbrev pub has_id : TransferId → HistoryRecord → Bool
has_id = has (λ r. r.id)

abbrev pub Outcome : Type 0
Outcome = Result (Unit {0}) CoreError × History

-- `History::record_in_progress`
unfoldable pub record_in_progress :
    History → TransferId → Text → ℕ → Bytes → Bytes → Text → ℕ → Outcome
record_in_progress h id name size sha256 md5 from started_at =
    if any (has_id id) h.records
    then (err (history (already_recorded id)), h)
    else (ok tt, record h { records = h.records ++ started ∷ [] })
  where
    started : HistoryRecord
    started = record {
      id = id;
      name = name;
      size = size;
      sha256 = sha256;
      md5 = md5;
      state = in_progress from started_at;
    }

abbrev pub set_state : TransferState → HistoryRecord → HistoryRecord
set_state s r = record r { state = s }

-- The `match` of `record_partial`: the new state, unless the record is completed.
abbrev pub partial_of : TransferState → ℕ → Option TransferState
partial_of (in_progress from started_at) bytes = some (partial from started_at bytes)
partial_of (partial from started_at _) bytes = some (partial from started_at bytes)
partial_of (completed completed_at) bytes = none

-- `History::record_partial`; its last argument, a time, is not used.
unfoldable pub record_partial : History → TransferId → ℕ → Outcome
record_partial h id bytes_so_far = elim (find (has_id id) h.records) [
  | none ↦ (err (history (no_such_transfer id)), h)
  | some r ↦ elim (partial_of r.state bytes_so_far) [
    | none ↦ (err (history (already_completed id)), h)
    | some s ↦ (ok tt, record h { records = update_first (has_id id) (set_state s) h.records })
  ]
]

-- `History::record_completed`
unfoldable pub record_completed : History → TransferId → ℕ → Outcome
record_completed h id completed_at = elim (find (has_id id) h.records) [
  | none ↦ (err (history (no_such_transfer id)), h)
  | some r ↦ (
    ok tt,
    record h { records = update_first (has_id id) (set_state (completed completed_at)) h.records },
  )
]

-- `History::purge_all`
unfoldable pub purge_all : History → History
purge_all h = record h { records = [] }

-- The test of `retain` in `purge_older_than`.
abbrev pub state_is_kept : ℕ → TransferState → Bool
state_is_kept cutoff (completed completed_at) = leb cutoff completed_at
state_is_kept cutoff (in_progress from started_at) = true
state_is_kept cutoff (partial from started_at bytes_so_far) = true

abbrev pub is_kept : ℕ → HistoryRecord → Bool
is_kept cutoff r = state_is_kept cutoff r.state

pub record HistoryConfig (Duration : Type 0) : Type 0 where
  pub retention : Option Duration

-- `HistoryConfig::default`
abbrev pub no_retention : {Duration : Type 0} → HistoryConfig Duration
no_retention = record { retention = none }

module _ {Duration : Type 0} (before : ℕ → Duration → Option ℕ) where
  -- `History::purge_older_than`
  unfoldable pub purge_older_than : History → ℕ → HistoryConfig Duration → Option History
  purge_older_than h now config = elim config.retention [
    | none ↦ some h
    | some window ↦ elim (before now window) [
      | none ↦ none
      | some cutoff ↦ some (record h { records = filter (is_kept cutoff) h.records })
    ]
  ]

  -- The change of `HistoryLog::record_completed`, with `run_auto_purge`.
  unfoldable pub complete_and_purge : HistoryConfig Duration → TransferId → ℕ → History → Outcome
  complete_and_purge config id at h =
      let (result, h') = record_completed h id at in
      elim result [
        | err e ↦ (err e, h')
        | ok _ ↦ elim (purge_older_than h' at config) [
          | none ↦ (err panicked, h')
          | some h'' ↦ (ok tt, h'')
        ]
      ]

module _ {W : Type 0} (b : Backend History W) where
  -- `HistoryLog::record_in_progress`
  unfoldable pub log_in_progress :
      W → TransferId → Text → ℕ → Bytes → Bytes → Text → ℕ → Result (Unit {0}) CoreError × W
  log_in_progress w id name size sha256 md5 from started_at =
      transact b (λ h. record_in_progress h id name size sha256 md5 from started_at) w

  -- `HistoryLog::record_partial`
  unfoldable pub log_partial : W → TransferId → ℕ → Result (Unit {0}) CoreError × W
  log_partial w id bytes_so_far = transact b (λ h. record_partial h id bytes_so_far) w

  -- `HistoryLog::record_completed`
  unfoldable pub log_completed :
      {Duration : Type 0}
      → (ℕ → Duration → Option ℕ)
      → HistoryConfig Duration
      → W
      → TransferId
      → ℕ
      → Result (Unit {0}) CoreError × W
  log_completed before config w id at = transact b (complete_and_purge before config id at) w

  -- `HistoryLog::purge_all`
  unfoldable pub log_purge_all : W → Result (Unit {0}) CoreError × W
  log_purge_all w = transact b (λ h. (ok tt, purge_all h)) w

  -- `HistoryLog::list`
  unfoldable pub log_list : W → Result (List HistoryRecord) CoreError
  log_list w = do h ← b.load w; ok h.records
