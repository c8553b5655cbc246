-- ===== src/Examples/Receiving.antt =====
-- Tests of the decisions of `recv`.
use mathlib.Core.List.{Memᴰ}
use mascara.Common.{
  List, ℕ, ◌≡◌, ◌≤◌, ◌<◌, ◌↔◌, refl, Bool, true, some, [], ◌∷◌, ok, err, map, eqb, if◌then◌else◌,
  inl, arith, eqb_iff, list_eq, nat_eq,
}
use mascara.Common.Text.{Text, codes}
use mascara.Core.Error.{json}
use mascara.Core.Manifest.{ManifestEntry}
use mascara.Core.Store.{Backend, transact, save}
use mascara.Core.Store.Laws.{IsFaithful}
use mascara.Core.History.{
  History, HistoryRecord, no_history, history_version, completed, log_list, log_in_progress,
  record_in_progress,
}
use mascara.Cli.{Offer, record_started, checked_total, total_from, checked_add, to_pull, u64_limit}
use mascara.Cli.Totals.{sum, IsHeld, checked_total_iff, to_pull-fits}
use mascara.Cli.Started.{IsReadable, record_started_again}

abbrev memory : Backend History History
memory = record {
  load = λ w. if eqb w.v history_version then ok w else err json;
  store = λ w s. (ok tt, s);
}

history_memory-IsFaithful : IsFaithful IsReadable memory
history_memory-IsFaithful = record {
  content = λ w. if eqb w.v history_version then ok w else err json;
  load-content = λ w. inl refl;
  content-Fits = λ w s h. ground (arith);
  content-stored = λ w s fits h. rw ((eqb_iff s.v history_version).1 fits) refl;
  content-failed = λ w s h. absurd (h refl);
}

abbrev photo : Offer
photo = record { name = codes "photo"; size = 9; sha256 = 1 ∷ []; md5 = 2 ∷ [] }

abbrev after_start : History
after_start = (record_started memory photo (7 ∷ []) (codes "here") 5 no_history).1

started :
    record_started memory photo (7 ∷ []) (codes "here") 5 no_history ≡ (ok (7 ∷ []), after_start)
unfolding record_started log_list log_in_progress transact save record_in_progress
started = refl

after_start_loads : memory.load after_start ≡ ok after_start
unfolding record_started transact record_in_progress
after_start_loads = refl

record_started_again_example :
    record_started memory photo (8 ∷ []) (codes "there") 6 after_start ≡ (ok (7 ∷ []), after_start)
record_started_again_example =
    record_started_again memory history_memory-IsFaithful photo photo (7 ∷ []) (8 ∷ []) (7 ∷ [])
      (codes "here") (codes "there") 5 6 no_history after_start after_start started
      after_start_loads refl refl

checked_total_iff_example :
    (checked_total (18446744073709551615 ∷ 1 ∷ []) ≡ some 18446744073709551616) ↔ (
      (sum (18446744073709551615 ∷ 1 ∷ []) ≡ 18446744073709551616)
      × (18446744073709551616 < u64_limit))
checked_total_iff_example = checked_total_iff (18446744073709551615 ∷ 1 ∷ []) 18446744073709551616

abbrev entry : Text → ℕ → ManifestEntry
entry name size = record { rel_path = name; size = size; sha256 = size ∷ []; md5 = []; mode = 420 }

abbrev held : HistoryRecord
held = record {
  id = 3 ∷ [];
  name = codes "a";
  size = 4;
  sha256 = 4 ∷ [];
  md5 = [];
  state = completed 1;
}

abbrev is_file : Text → Bool
is_file name = true

both_sizes :
    checked_total
      (map (λ (e : ManifestEntry). e.size) (entry (codes "a") 4 ∷ entry (codes "b") 6 ∷ []))
    ≡ some 10
unfolding checked_total total_from checked_add
both_sizes = refl

abbrev two_entries : List ManifestEntry
two_entries = entry (codes "a") 4 ∷ entry (codes "b") 6 ∷ []

to_pull-fits_example :
    ((e : ManifestEntry)
      → Memᴰ e (to_pull (held ∷ []) is_file two_entries)
        ↔ (Memᴰ e two_entries × ¬ IsHeld (held ∷ []) is_file e))
    × (m : ℕ) × (checked_total
          (map (λ (e : ManifestEntry). e.size) (to_pull (held ∷ []) is_file two_entries))
        ≡ some m)
    × (m ≤ 10)
to_pull-fits_example = to_pull-fits (held ∷ []) is_file two_entries 10 both_sizes
