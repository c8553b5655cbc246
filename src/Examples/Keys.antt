-- ===== src/Examples/Keys.antt =====
-- Tests of the keystore, at a concrete form of the key file.
use mascara.Common.{
  ◌≡◌, refl, ap, true, false, Option, none, some, [], ◌∷◌, ◌++◌, ok, length, take, drop, sym, ◌∙◌,
  list_eq, nat_eq,
}
use mascara.Common.Text.{Text, Bytes}
use mascara.Core.Card.{Card}
use mascara.Core.Card.Payload.{take-append, drop-append}
use mascara.Core.Keystore.{
  Identity, Keys, KeysFile, Home, load_identity, save_identity, init_if_missing, run_all,
  save_steps,
}
use mascara.Core.Keystore.Private.{IsGuarded, save_steps-IsGuarded}
use mascara.Core.Keystore.Loaded.{IsReadBack, IsFull, init_if_missing-stored}
use mascara.Examples.Tickets.{zeros}

abbrev to_json : KeysFile → Option Bytes
to_json f = some (f.v ∷ length f.transport_sk ∷ (f.transport_sk ++ f.sealing_sk))

abbrev from_json : Bytes → Option KeysFile
from_json [] = none
from_json (v ∷ []) = none
from_json (v ∷ n ∷ b) = some (record { v = v; transport_sk = take n b; sealing_sk = drop n b })

abbrev hex : Bytes → Text
hex b = b

abbrev unhex : Text → Option Bytes
unhex s = some s

abbrev keys : Keys
keys = record { verifying_key = λ b. b; sealing_public = λ b. b; sign = λ key message. zeros 64 }

abbrev text : Card → Bytes
text c = c.transport_pk

abbrev fresh : Identity
fresh = record { transport = zeros 32; sealing = zeros 32 }

abbrev empty_home : Home
empty_home n = none

parsed : (f : KeysFile) (b : Bytes) → to_json f ≡ some b → from_json b ≡ some f
parsed f b e =
    let t : Text = f.transport_sk in
    let s : Text = f.sealing_sk in
    let written : Bytes = f.v ∷ length t ∷ (t ++ s) in
    let same : written ≡ b = cc (e) in
    let read : from_json written ≡ some f =
      rw (take-append (length t) t s refl, drop-append (length t) t s refl) refl in
    ap from_json (sym same) ∙ read

IsReadBack_lem : IsReadBack to_json from_json hex unhex keys text
IsReadBack_lem = record { parsed = parsed; unhexed = λ b. refl }

fresh-IsFull : IsFull to_json from_json hex unhex keys text fresh
fresh-IsFull = record { transport_len = refl; sealing_len = refl }

save_steps-IsGuarded_example :
    IsGuarded
      (1 ∷ [])
      empty_home
      (run_all (take 4 (save_steps (1 ∷ []) (2 ∷ []))) (none ∷ some 3 ∷ []) empty_home).1
save_steps-IsGuarded_example =
    save_steps-IsGuarded (1 ∷ []) (2 ∷ []) empty_home (none ∷ some 3 ∷ []) 4

-- The first call of `init_if_missing` mints, and the identity is stored then.
made : init_if_missing to_json from_json hex unhex keys text fresh [] empty_home ≡ (
  ok (fresh, true),
  (init_if_missing to_json from_json hex unhex keys text fresh [] empty_home).1,
)
unfolding init_if_missing load_identity save_identity run_all save_steps
made = refl

init_if_missing-stored_example :
    (load_identity to_json from_json hex unhex keys text
        (init_if_missing to_json from_json hex unhex keys text fresh [] empty_home).1
      ≡ ok fresh)
    × ((true ≡ false)
        → (init_if_missing to_json from_json hex unhex keys text fresh [] empty_home).1
          ≡ empty_home)
    × ((true ≡ true) → fresh ≡ fresh)
init_if_missing-stored_example =
    init_if_missing-stored to_json from_json hex unhex keys text fresh [] empty_home fresh true _
      IsReadBack_lem fresh-IsFull made
