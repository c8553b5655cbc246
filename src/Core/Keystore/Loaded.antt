-- ===== src/Core/Keystore/Loaded.antt =====
-- An identity that keystore.rs saved is the one that it loads.
use mascara.Common.{
  then_branch, else_branch, ℕ, ◌≡◌, ◌≢◌, ◌⊎◌, refl, ap, sym, ◌∙◌, Bool, true, false, Option, none,
  some, List, [], ◌∷◌, Result, ok, err, eqb, length, eqb_iff, Option-cases, Result-cases,
  Bool-cases, inl, inr, list_beq, list_eq, nat_eq, ◌>>◌,
}
use mascara.Common.Text.{Text, Bytes}
use mascara.Core.Error.{CoreError, json}
use mascara.Core.Card.{Card}
use mascara.Core.Keystore.{
  Identity, Keys, KeysFile, Home, Call, make_dir, protect_dir, perform, fail, run_all, put_file,
  write_steps, card_steps, save_steps, keys_file, card, decode_secret, load_identity, key_file_of,
  save_identity, init_if_missing, is_missing, once_saved,
}
use mascara.Core.Keystore.Private.{save_steps-IsGuarded}

-- All the calls, made.
abbrev all_made : List Call → Home → Home
all_made [] h = h
all_made (c ∷ calls) h = all_made calls (perform c h)

run_all-ok :
    (calls : List Call) (weather : List (Option ℕ)) (h : Home)
    → (run_all calls weather h).0 ≡ ok tt
    → (run_all calls weather h).1 ≡ all_made calls h
unfolding run_all
run_all-ok [] weather h e = refl
run_all-ok (c ∷ calls) (some k ∷ weather) h e = cc (e)
run_all-ok (c ∷ calls) (none ∷ weather) h e = run_all-ok calls weather (perform c h) e
run_all-ok (c ∷ calls) [] h e = run_all-ok calls [] (perform c h) e

saved_keys :
    (keys_json text : Bytes) (h : Home)
    → all_made (save_steps keys_json text) h keys_file ≡ some (keys_json, true)
unfolding save_steps write_steps card_steps perform put_file list_beq
saved_keys keys_json text h = refl

-- The key file after the calls of a save: the new one, or the old one after an error.
keys_after :
    (keys_json text : Bytes) (weather : List (Option ℕ)) (h : Home)
    → let (result, after) = run_all (save_steps keys_json text) weather h in
      (after keys_file ≡ some (keys_json, true))
      ⊎ ((result ≢ ok tt) × (after keys_file ≡ h keys_file))
unfolding save_steps write_steps card_steps
keys_after keys_json text weather h = elim (save_steps-IsGuarded keys_json text h weather 12).1 [
  | inr new ↦ inl new
  | inl old ↦ elim (Result-cases (run_all (save_steps keys_json text) weather h).0) [
    | inl (u, good) ↦ inl (
        ap (λ (x : Home). x keys_file) (run_all-ok (save_steps keys_json text) weather h good)
        ∙ saved_keys keys_json text h)
    | inr (why, bad) ↦ inr ((λ good. cc (good, bad)), old)
  ]
]

dirs_only :
    (weather : List (Option ℕ)) (h : Home) → (run_all (make_dir ∷ protect_dir ∷ []) weather h).1 ≡ h
unfolding run_all perform fail
dirs_only [] h = refl
dirs_only (some k ∷ weather) h = refl
dirs_only (none ∷ []) h = refl
dirs_only (none ∷ some k ∷ weather) h = refl
dirs_only (none ∷ none ∷ weather) h = refl

failed_after : (r : Result (Unit {0}) CoreError) → ◌>>◌ {B = Unit {0}} r (err json) ≢ ok tt
failed_after (ok u) e = cc (e)
failed_after (err why) e = cc (e)

never :
    {A : Type 0} {why : CoreError} {id : Identity × Bool} {h h' : Home}
    → ◌≡◌ {A = Result (Identity × Bool) CoreError × Home} (err why, h) (ok id, h')
    → A
never e = cc (e)

once_saved-ok :
    (fresh : Identity) (r : Result (Unit {0}) CoreError × Home) (id : Identity) (created : Bool)
    (h' : Home)
    → once_saved {A = Identity × Bool} (fresh, true) r ≡ (ok (id, created), h')
    → (r.0 ≡ ok tt) × (id ≡ fresh) × (created ≡ true) × (h' ≡ r.1)
unfolding once_saved
once_saved-ok fresh (ok u, h) id created h' e =
    let both : ◌≡◌ {A = Result (Identity × Bool) CoreError × Home} (ok (fresh, true), h)
        (ok (id, created), h') =
      e in
    (refl, cc (both), cc (both), cc (both))
once_saved-ok fresh (err why, h) id created h' e = never e

module _ (to_json : KeysFile → Option Bytes) (from_json : Bytes → Option KeysFile)
    (to_hex : Bytes → Text) (from_hex : Text → Option Bytes) (keys : Keys)
    (card_text : Card → Bytes) where
  -- JSON and hex read back what they wrote.
  pub record IsReadBack : Type 0 where
    pub parsed : (f : KeysFile) (b : Bytes) → to_json f ≡ some b → from_json b ≡ some f
    pub unhexed : (b : Bytes) → from_hex (to_hex b) ≡ some b

  pub record IsFull (id : Identity) : Type 0 where
    pub transport_len : length id.transport ≡ 32
    pub sealing_len : length id.sealing ≡ 32

  load_by :
      (h h' : Home)
      → h' keys_file ≡ h keys_file
      → load_identity to_json from_json to_hex from_hex keys card_text h'
        ≡ load_identity to_json from_json to_hex from_hex keys card_text h
  unfolding load_identity
  load_by h h' e = rw (load_identity, e) refl

  secret_read :
      (b : Bytes)
      → IsReadBack
      → length b ≡ 32
      → decode_secret to_json from_json to_hex from_hex keys card_text (to_hex b) ≡ ok b
  unfolding decode_secret
  secret_read b back len =
      let sized : eqb (length b) 32 ≡ true = (eqb_iff (length b) 32).1 len in
      rw (back.unhexed b, sized) refl

  load_new :
      (h : Home) (id : Identity) (keys_json : Bytes)
      → IsReadBack
      → IsFull id
      → to_json (key_file_of to_json from_json to_hex from_hex keys card_text id) ≡ some keys_json
      → h keys_file ≡ some (keys_json, true)
      → load_identity to_json from_json to_hex from_hex keys card_text h ≡ ok id
  unfolding load_identity key_file_of
  load_new h id keys_json back full written there =
      rw
        (
          load_identity,
          there,
          back.parsed _ keys_json written,
          secret_read id.transport back full.transport_len,
          secret_read id.sealing back full.sealing_len,
        )
        refl

  -- After a save the stored identity is the new one, and that is so whenever the save succeeds; after an
  -- error it may also be what was stored before.
  pub load_identity-save_identity :
      (id : Identity) (weather : List (Option ℕ)) (h : Home)
      → IsReadBack
      → IsFull id
      → let (result, after) =
          save_identity to_json from_json to_hex from_hex keys card_text id weather h in
        (load_identity to_json from_json to_hex from_hex keys card_text after ≡ ok id)
        ⊎ ((result ≢ ok tt)
            × (load_identity to_json from_json to_hex from_hex keys card_text after
                ≡ load_identity to_json from_json to_hex from_hex keys card_text h))
  unfolding save_identity
  load_identity-save_identity id weather h back full =
      elim (Option-cases
        (to_json (key_file_of to_json from_json to_hex from_hex keys card_text id))) [
          | inl e ↦
              rw (save_identity, e)
                (inr (
                  failed_after (run_all (make_dir ∷ protect_dir ∷ []) weather h).0,
                  load_by h _ (ap (λ (x : Home). x keys_file) (dirs_only weather h)),
                ))
          | inr (keys_json, e) ↦
              rw (save_identity, e)
                (elim (keys_after keys_json (card_text (card keys id)) weather h) [
                  | inl new ↦ inl (load_new _ id keys_json back full e new)
                  | inr (bad, old) ↦ inr (bad, load_by h _ old)
                ])
        ]

  -- If JSON and hex read back what they wrote and the minted secrets have 32 bytes each, then the identity
  -- that `init_if_missing` returns is the one stored afterwards, whatever fails; no file changes when it
  -- reports that the identity was there, and it is the minted one when it reports a new one.
  pub init_if_missing-stored :
      (fresh : Identity) (weather : List (Option ℕ)) (h : Home) (id : Identity) (created : Bool)
      (h' : Home)
      → IsReadBack
      → IsFull fresh
      → init_if_missing to_json from_json to_hex from_hex keys card_text fresh weather h
        ≡ (ok (id, created), h')
      → (load_identity to_json from_json to_hex from_hex keys card_text h' ≡ ok id)
        × ((created ≡ false) → h' ≡ h)
        × ((created ≡ true) → id ≡ fresh)
  unfolding init_if_missing
  init_if_missing-stored fresh weather h id created h' back full e =
      elim (Result-cases (load_identity to_json from_json to_hex from_hex keys card_text h)) [
        | inl (there, e0) ↦
            let both : ◌≡◌ {A = Result (Identity × Bool) CoreError × Home} (ok (there, false), h)
                (ok (id, created), h') =
              rw (init_if_missing, e0) at e in
            let unchanged : h ≡ h' = cc (both) in
            let old : false ≡ created = cc (both) in
            let same : there ≡ id = cc (both) in
            (
              load_by h h' (ap (λ (x : Home). x keys_file) (sym unchanged)) ∙ e0 ∙ ap ok same,
              (λ _. sym unchanged),
              λ new. cc (old, new),
            )
        | inr (why, e0) ↦
            let e1 = rw (init_if_missing, e0) at e in
            let after_save : Home =
              (save_identity to_json from_json to_hex from_hex keys card_text fresh weather h).1 in
            elim (Bool-cases (is_missing why)) [
              | inr n ↦ never (else_branch (is_missing why) _ _ n e1)
              | inl y ↦
                  let (good, same, new, after) =
                    once_saved-ok fresh
                      (save_identity to_json from_json to_hex from_hex keys card_text fresh weather
                        h)
                      id created h' (then_branch (is_missing why) _ _ y e1) in
                  let stored : load_identity to_json from_json to_hex from_hex keys card_text
                        after_save
                      ≡ ok fresh =
                    elim (load_identity-save_identity fresh weather h back full) [
                      | inl it ↦ it
                      | inr (bad, _) ↦ absurd (bad good)
                    ] in
                  (
                    load_by after_save h' (ap (λ (x : Home). x keys_file) after)
                        ∙ stored
                        ∙ ap ok (sym same),
                    (λ old. cc (old, new)),
                    λ _. same,
                  )
            ]
      ]
