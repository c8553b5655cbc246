-- ===== src/Examples/Records.antt =====
-- Tests of the transfer history and of the manifest, at concrete records.
use mascara.Common.{
  ok, ℕ, ◌-◌, ◌≡◌, ◌↔◌, refl, Option, none, some, [], ◌∷◌, ok, list_eq, nat_eq, list_beq, filter,
}
use mascara.Common.Keyed.{Distinct}
use mascara.Common.Text.{codes, Bytes}
use mascara.Core.ContentCheck.{Sniffed}
use mascara.Core.History.{
  TransferId, History, no_history, record_in_progress, record_partial, record_completed,
  purge_older_than, HistoryConfig, is_kept,
}
use mascara.Core.History.Origin.{known_origin}
use mascara.Core.History.Completion.{Reach, LaterWithout, completion_forgets_origin}
use mascara.Core.Manifest.{Manifest, clean, decode_and_verify}
use mascara.Core.Manifest.Verified.{IsAcceptable, decode_and_verify_iff}

abbrev film : TransferId
film = 1 ∷ []

abbrev song : TransferId
song = 2 ∷ []

abbrev started : History
started = (record_in_progress no_history film (70 ∷ []) 100 [] [] (90 ∷ []) 5).1

abbrev both : History
both = (record_in_progress started song (71 ∷ []) 10 [] [] (91 ∷ []) 6).1

abbrev back : ℕ → ℕ → Option ℕ
back now window = some (now - window)

abbrev week : HistoryConfig ℕ
week = record { retention = some 7 }

song-started : (record_in_progress started song (71 ∷ []) 10 [] [] (91 ∷ []) 6).0 ≡ ok tt
unfolding record_in_progress list_beq
song-started = refl

both-Reach : Reach back both
both-Reach =
    Reach.started song (71 ∷ []) 10 [] [] (91 ∷ []) 6
      (Reach.started film (70 ∷ []) 100 [] [] (90 ∷ []) 5 Reach.empty)

abbrev finished : History
finished = (record_completed both film 8).1

completion_forgets_origin_example : known_origin (record_partial finished song 3).1 film ≡ none
completion_forgets_origin_example =
    completion_forgets_origin back both (record_partial finished song 3).1 film 8 both-Reach
      (LaterWithout.advanced song 3 LaterWithout.same)

abbrev thinned : History
thinned = record finished { records = filter (is_kept 13) finished.records }

purged : purge_older_than back finished 20 week ≡ some thinned
unfolding purge_older_than
purged = refl

finished-Distinct : Distinct (λ r. r.id) finished.records
unfolding record_completed record_in_progress list_beq
finished-Distinct = (refl, (refl, tt))

-- Each manifest is one byte, its version.
abbrev write_v : Manifest → Option Bytes
write_v m = some (m.v ∷ [])

abbrev read_v : Bytes → Option Manifest
read_v [] = none
read_v (v ∷ rest) = some (record { v = v; entries = [] })

abbrev same_bytes : Bytes → Bytes
same_bytes b = b

decode_and_verify_iff_example :
    (decode_and_verify write_v read_v same_bytes (1 ∷ []) (1 ∷ [])
      ≡ ok (clean (record { v = 1; entries = [] })))
    ↔ IsAcceptable write_v read_v same_bytes
        (1 ∷ [])
        (1 ∷ [])
        (clean (record { v = 1; entries = [] }))
decode_and_verify_iff_example =
    decode_and_verify_iff write_v read_v same_bytes (1 ∷ []) (1 ∷ [])
      (clean (record { v = 1; entries = [] }))

-- Every file is recognised as an executable.
abbrev always_exe : Bytes → Option Sniffed
always_exe b =
    some (record { extension = codes "exe"; mime_type = codes "application/x-msdownload" })
