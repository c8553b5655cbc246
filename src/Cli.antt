-- ===== src/Cli.antt =====
-- The decisions of `recv` in crates/mascara-cli/src/main.rs: the totals that it shows, the entries that
-- are held already, and the history record that a transfer continues.
pub mod Totals
pub mod Started
use mascara.Common.{
  ℕ, ◌+◌, Bool, true, false, not, ◌&&◌, Option, none, some, List, [], ◌∷◌, map, Result, ok, err,
  ◌>>◌, if◌then◌else◌, ◌==◌, list_eq, nat_eq, ltb, any, filter, find,
}
use mascara.Common.Text.{Text, Bytes}
use mascara.Core.Error.{CoreError}
use mascara.Core.Manifest.{ManifestEntry}
use mascara.Core.Store.{Backend}
use mascara.Core.History.{
  TransferId, TransferState, HistoryRecord, History, is_resumable, log_in_progress, log_list,
}

-- `checked_add`, in numbers below `limit`.
unfoldable pub checked_add : ℕ → ℕ → ℕ → Option ℕ
checked_add limit a b = if ltb (a + b) limit then some (a + b) else none

unfoldable pub total_from : ℕ → ℕ → List ℕ → Option ℕ
total_from limit total [] = some total
total_from limit total (size ∷ sizes) = elim (checked_add limit total size) [
  | none ↦ none
  | some sum ↦ total_from limit sum sizes
]

abbrev pub u64_limit : ℕ
u64_limit = 18446744073709551616

-- `checked_total`
unfoldable pub checked_total : List ℕ → Option ℕ
unfolding total_from
checked_total sizes = total_from u64_limit 0 sizes

-- `matches!(r.state, TransferState::Completed { .. })`
unfoldable pub is_completed : TransferState → Bool
unfolding is_resumable
is_completed s = not (is_resumable s)

-- The closure `is_held`: the hash is of a completed transfer, and the file is where a pull puts it.
unfoldable pub is_held : List HistoryRecord → (Text → Bool) → ManifestEntry → Bool
unfolding is_completed
is_held records is_file e =
    any (λ (r : HistoryRecord). is_completed r.state && r.sha256 == e.sha256) records
    && is_file e.rel_path

unfoldable pub to_pull :
    List HistoryRecord → (Text → Bool) → List ManifestEntry → List ManifestEntry
unfolding is_held
to_pull records is_file entries = filter (λ e. not (is_held records is_file e)) entries

-- The closure of `record_started`: a resumable record of the same content and name.
abbrev pub continues : Bytes → Text → HistoryRecord → Bool
continues sha256 name r = r.sha256 == sha256 && r.name == name && is_resumable r.state

-- What a transfer is recorded with.
pub record Offer : Type 0 where
  pub name : Text
  pub size : ℕ
  pub sha256 : Bytes
  pub md5 : Bytes

module _ {W : Type 0} (b : Backend History W) where
  -- `record_started`, with the identifier that it would mint.
  unfoldable pub record_started :
      Offer → TransferId → Text → ℕ → W → Result TransferId CoreError × W
  unfolding log_list log_in_progress
  record_started o minted from now w = elim (log_list b w) [
    | err why ↦ (err why, w)
    | ok records ↦ elim (find (continues o.sha256 o.name) records) [
      | some existing ↦ (ok existing.id, w)
      | none ↦
          let (result, w') = log_in_progress b w minted o.name o.size o.sha256 o.md5 from now in
          (result >> ok minted, w')
    ]
  ]
