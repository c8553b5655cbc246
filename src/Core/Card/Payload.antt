-- ===== src/Core/Card/Payload.antt =====
-- The payload of a card: exactly the bytes that `payload_bytes` writes of a card whose keys are bound.
use mascara.Common.{
  ℕ, suc, zero, ◌+◌, ◌≡◌, ◌↔◌, refl, ap, sym, subst, ◌∙◌, Bool, true, Option, some, [], ◌∷◌, ◌++◌,
  Result, ok, eqb, length, length-append, take, drop, take-append-drop, length-take, length-drop,
  Bool-cases, inl, inr, arith, eqb_iff, eq_refl, list_eq, nat_eq,
}
use mascara.Common.Text.{Text, Bytes, IsSolid, trim-IsSolid}
use mascara.Core.Error.{CoreError}
use mascara.Core.Card.{
  Card, card_hrp, binding_message, payload_bytes, bound, from_payload_bytes, encode_card,
  parse_card,
}

pub take-append : (n : ℕ) (xs ys : Bytes) → length xs ≡ n → take n (xs ++ ys) ≡ xs
take-append zero [] ys h = refl
take-append zero (x ∷ xs) ys h = absurd (omega (arith, h))
take-append (suc n) [] ys h = absurd (omega (arith, h))
take-append (suc n) (x ∷ xs) ys h = ap (λ zs. x ∷ zs) (take-append n xs ys (omega (arith, h)))

pub drop-append : (n : ℕ) (xs ys : Bytes) → length xs ≡ n → drop n (xs ++ ys) ≡ ys
drop-append zero [] ys h = refl
drop-append zero (x ∷ xs) ys h = absurd (omega (arith, h))
drop-append (suc n) [] ys h = absurd (omega (arith, h))
drop-append (suc n) (x ∷ xs) ys h = drop-append n xs ys (omega (arith, h))

take_whole : (n : ℕ) (xs : Bytes) → length xs ≡ n → take n xs ≡ xs
take_whole zero [] h = refl
take_whole zero (x ∷ xs) h = absurd (omega (arith, h))
take_whole (suc n) [] h = refl
take_whole (suc n) (x ∷ xs) h = ap (λ zs. x ∷ zs) (take_whole n xs (omega (arith, h)))

drop_nil : (n : ℕ) → drop {A = ℕ} n [] ≡ []
drop_nil zero = refl
drop_nil (suc n) = refl

drop-drop : (m n : ℕ) (xs : Bytes) → drop m (drop n xs) ≡ drop (n + m) xs
drop-drop m zero xs = ap (λ (k : ℕ). drop k xs) (omega arith)
drop-drop m (suc n) [] = drop_nil m ∙ ap (λ (k : ℕ). drop k []) {x = suc (n + m)} (omega arith)
drop-drop m (suc n) (x ∷ xs) =
    drop-drop m n xs ∙ ap (λ (k : ℕ). drop k (x ∷ xs)) {x = suc (n + m)} (omega arith)

-- The three fields of a body of the right length.
body_fields :
    (body : Bytes)
    → length body ≡ 128
    → take 32 body ++ (take 32 (drop 32 body) ++ take 64 (drop 64 body)) ≡ body
body_fields body h =
    let last : take 64 (drop 64 body) ≡ drop 32 (drop 32 body) =
      take_whole 64 (drop 64 body) (omega (arith, length-drop 64 body, h))
      ∙ sym (drop-drop 32 32 body) in
    rw (last, take-append-drop 32 (drop 32 body)) (take-append-drop 32 body)

module _ (is_key : Bytes → Bool) (verify_strict : Bytes → Bytes → Bytes → Bool) where
  -- A card with fields of the right sizes whose transport key signed its sealing key.
  pub record IsBound (card : Card) : Type 0 where
    pub transport_len : length card.transport_pk ≡ 32
    pub sealing_len : length card.sealing_pk ≡ 32
    pub sig_len : length card.binding_sig ≡ 64
    pub keyed : is_key card.transport_pk ≡ true
    pub signed :
        verify_strict card.transport_pk (binding_message card.sealing_pk) card.binding_sig ≡ true

  bound-ok :
      (c card : Card)
      → bound is_key verify_strict c ≡ ok card
      → (c ≡ card)
        × (is_key c.transport_pk ≡ true)
        × (verify_strict c.transport_pk (binding_message c.sealing_pk) c.binding_sig ≡ true)
  unfolding bound
  bound-ok c card h = elim (Bool-cases (is_key c.transport_pk)) [
    | inr bad ↦ cc (rw (bound, bad) at h)
    | inl good ↦
        elim (Bool-cases
          (verify_strict c.transport_pk (binding_message c.sealing_pk) c.binding_sig)) [
            | inr bad ↦ cc (rw (bound, good, bad) at h)
            | inl signed ↦
                let same : ◌≡◌ {A = Result Card CoreError} (ok c) (ok card) =
                  rw (bound, good, signed) at h in
                (cc (same), good, signed)
          ]
  ]

  abbrev fields : Bytes → Card
  fields body = record {
    transport_pk = take 32 body;
    sealing_pk = take 32 (drop 32 body);
    binding_sig = take 64 (drop 64 body);
  }

  payload-IsBound :
      (payload : Bytes) (card : Card)
      → from_payload_bytes is_key verify_strict payload ≡ ok card
      → (payload ≡ payload_bytes card) × IsBound card
  unfolding from_payload_bytes payload_bytes
  payload-IsBound [] card h = cc (h)
  payload-IsBound (version ∷ body) card h = elim (Bool-cases (eqb (suc (length body)) 129)) [
    | inr bad ↦ cc (rw (from_payload_bytes, bad) at h)
    | inl sized ↦ elim (Bool-cases (eqb version 1)) [
      | inr bad ↦ cc (rw (from_payload_bytes, sized, bad) at h)
      | inl current ↦
          let len : length body ≡ 128 = omega (arith, (eqb_iff (suc (length body)) 129).0 sized) in
          let (same, keyed, signed) =
            bound-ok (fields body) card (rw (from_payload_bytes, sized, current) at h) in
          subst (λ c. (version ∷ body ≡ payload_bytes c) × IsBound c) same
            (
              ap (λ (v : ℕ). v ∷ body) ((eqb_iff version 1).0 current)
                  ∙ ap (λ b. 1 ∷ b) (sym (body_fields body len)),
              record {
                transport_len = omega (arith, length-take 32 body, len);
                sealing_len =
                    omega (arith, length-take 32 (drop 32 body), length-drop 32 body, len);
                sig_len = omega (arith, length-take 64 (drop 64 body), length-drop 64 body, len);
                keyed = keyed;
                signed = signed;
              },
            )
    ]
  ]

  bound_payload :
      (card : Card)
      → IsBound card
      → from_payload_bytes is_key verify_strict (payload_bytes card) ≡ ok card
  unfolding from_payload_bytes payload_bytes bound
  bound_payload card b =
      let body : Bytes = card.transport_pk ++ (card.sealing_pk ++ card.binding_sig) in
      let sized : eqb (suc (length body)) 129 ≡ true = (eqb_iff (suc (length body)) 129).1 (
        omega (
          arith,
          length-append card.transport_pk (card.sealing_pk ++ card.binding_sig),
          length-append card.sealing_pk card.binding_sig,
          b.transport_len,
          b.sealing_len,
          b.sig_len,
        )) in
      let rest : drop 32 body ≡ card.sealing_pk ++ card.binding_sig =
        drop-append 32 card.transport_pk (card.sealing_pk ++ card.binding_sig) b.transport_len in
      let first : take 32 body ≡ card.transport_pk =
        take-append 32 card.transport_pk (card.sealing_pk ++ card.binding_sig) b.transport_len in
      let second : take 32 (drop 32 body) ≡ card.sealing_pk =
        ap (take 32) rest ∙ take-append 32 card.sealing_pk card.binding_sig b.sealing_len in
      let third : take 64 (drop 64 body) ≡ card.binding_sig =
        ap (take 64) (
          sym (drop-drop 32 32 body)
          ∙ ap (drop 32) rest
          ∙ drop-append 32 card.sealing_pk card.binding_sig b.sealing_len)
        ∙ take_whole 64 card.binding_sig b.sig_len in
      rw (sized, first, second, third, b.keyed, b.signed) refl

  -- The bytes that are accepted as a card are exactly the payload bytes of that card, and the card is
  -- one with fields of the right sizes whose transport key is valid and signed its sealing key.
  pub from_payload_bytes_iff :
      (payload : Bytes) (card : Card)
      → (from_payload_bytes is_key verify_strict payload ≡ ok card)
        ↔ ((payload ≡ payload_bytes card) × IsBound card)
  from_payload_bytes_iff payload card = (
    payload-IsBound payload card,
    λ h. ap (from_payload_bytes is_key verify_strict) h.0 ∙ bound_payload card h.1,
  )

  -- A card that is written and pasted is the card that was written, if its keys are bound, and bech32m
  -- writes no white space and reads back the prefix and the bytes that it wrote.
  pub parse_card-encode_card :
      (lower : Text → Text) (to_bech32m : Text → Bytes → Text)
      (from_bech32m : Text → Option (Text × Bytes)) (card : Card)
      → ((bytes : Bytes) → IsSolid (to_bech32m card_hrp bytes))
      → ((bytes : Bytes) → from_bech32m (to_bech32m card_hrp bytes) ≡ some (card_hrp, bytes))
      → lower card_hrp ≡ card_hrp
      → IsBound card
      → parse_card is_key verify_strict lower to_bech32m from_bech32m
          (encode_card is_key verify_strict lower to_bech32m from_bech32m card)
        ≡ ok card
  unfolding parse_card encode_card
  parse_card-encode_card lower to_bech32m from_bech32m card solid read lowered b =
      rw
        (
          trim-IsSolid (to_bech32m card_hrp (payload_bytes card)) (solid (payload_bytes card)),
          read (payload_bytes card),
          lowered,
          eq_refl card_hrp,
        )
        (bound_payload card b)
