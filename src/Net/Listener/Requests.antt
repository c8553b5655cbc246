-- ===== src/Net/Listener/Requests.antt =====
-- Whole requests of listener.rs: which of them are answered with bytes.
use mascara.Common.{
  ℕ, ◌+◌, ◌-◌, ◌*◌, ◌≤◌, ◌≡◌, refl, Bool, true, Option, some, [], ◌∷◌, ok, ltb, eqb, length, take,
  drop, eqb_iff, Bool-cases, Option-cases, Result-cases, inl, inr, arith,
}
use mascara.Common.Text.{Bytes}
use mascara.Core.Registry.{Nonce, IssuedTickets, revoke}
use mascara.Core.Registry.Permanence.{Later}
use mascara.Core.Ticket.{FileRef, download}
use mascara.Core.Manifest.{Manifest}
use mascara.Net.Listener.{authorize, invalid_ticket}
use mascara.Net.Listener.Auth.{revoked-never-authorized}
use mascara.Net.Listener.Offers.{HostPath, OfferRecord, file_offer}
use mascara.Net.Listener.Serve.{
  Host, Request, Op, file_op, Reply, stream, error_reply, refused, dispatch, by_grant,
  handle_parsed, handle_request, max_request_frame,
}
use mascara.Net.Response.{read_u32_le}
use mascara.Net.Listener.Served.{serve_file_op_iff}

module _ (host : Host) (to_postcard : Manifest → Option Bytes)
    (from_postcard : Bytes → Option Manifest) (digest : Bytes → Bytes) where
  -- What a request went through before its offer was dispatched on.
  abbrev pub IsGranted :
      Bytes → IssuedTickets → (Nonce → Option OfferRecord) → ℕ → Request → Reply → Type 0
  IsGranted remote tickets lookup now req reply =
      (offer : OfferRecord) × (req.v ≡ 1)
      × (authorize tickets req.nonce remote now ≡ ok tt)
      × (lookup req.nonce ≡ some offer)
      × (offer.grant ≡ download)
      × (dispatch host to_postcard from_postcard digest offer.payload req.op ≡ ok reply)

  allowed :
      (offer : OfferRecord) (op : Op) (n : ℕ) (bytes : Bytes)
      → by_grant host to_postcard from_postcard digest offer.grant offer.payload op
        ≡ ok (stream n bytes)
      → (offer.grant ≡ download)
        × (dispatch host to_postcard from_postcard digest offer.payload op ≡ ok (stream n bytes))
  unfolding by_grant
  allowed offer op n bytes h = ground (arith, offer.grant)

  parsed-IsGranted :
      (remote : Bytes) (tickets : IssuedTickets) (lookup : Nonce → Option OfferRecord) (now : ℕ)
      (req : Request) (n : ℕ) (bytes : Bytes)
      → handle_parsed host to_postcard from_postcard digest remote tickets lookup now req
        ≡ ok (stream n bytes)
      → IsGranted remote tickets lookup now req (stream n bytes)
  unfolding handle_parsed
  parsed-IsGranted remote tickets lookup now req n bytes h = elim (Bool-cases (eqb req.v 1)) [
    | inr other ↦ cc (rw (handle_parsed, other) at h)
    | inl current ↦ elim (Result-cases (authorize tickets req.nonce remote now)) [
      | inr (refusal, e) ↦ cc (rw (handle_parsed, current, e) at h)
      | inl (granted, e) ↦ elim (Option-cases (lookup req.nonce)) [
        | inl f ↦ cc (rw (handle_parsed, current, e, f) at h)
        | inr (offer, f) ↦
            let (may, sent) =
              allowed offer req.op n bytes (rw (handle_parsed, current, e, f) at h) in
            (offer, (eqb_iff req.v 1).0 current, e, f, may, sent)
      ]
    ]
  ]

  module _ (parse_request : Bytes → Option Request) where
    -- Bytes are sent only if what was received starts with a length within the cap and at least as many
    -- bytes, the first so many of which parse to a request of version 1, whose nonce the remote is
    -- authorized for and for which a download offer is on record; they are what the offer's payload
    -- gives for the requested operation.
    pub stream-IsGranted :
        (remote : Bytes) (tickets : IssuedTickets) (lookup : Nonce → Option OfferRecord) (now : ℕ)
        (recv : Bytes) (n : ℕ) (bytes : Bytes)
        → handle_request host to_postcard from_postcard digest parse_request remote tickets lookup
            now recv
          ≡ ok (stream n bytes)
        → (len : ℕ) × (body : Bytes) × (req : Request) × (read_u32_le recv ≡ some (len, body))
          × (len ≤ max_request_frame)
          × (len ≤ length body)
          × (parse_request (take len body) ≡ some req)
          × IsGranted remote tickets lookup now req (stream n bytes)
    unfolding handle_request
    stream-IsGranted remote tickets lookup now (a ∷ b ∷ c ∷ d ∷ frame) n bytes h =
        let len : ℕ = a + 256 * b + 65536 * c + 16777216 * d in
        elim (Bool-cases (ltb max_request_frame len)) [
          | inl over ↦ cc (rw (handle_request, over) at h)
          | inr within ↦ elim (Bool-cases (ltb (length frame) len)) [
            | inl short ↦ cc (rw (handle_request, within, short) at h)
            | inr whole ↦ elim (Option-cases (parse_request (take len frame))) [
              | inl e ↦ cc (rw (handle_request, within, whole, e) at h)
              | inr (req, e) ↦ (
                len,
                frame,
                req,
                refl,
                ground (arith, within),
                ground (arith, whole),
                e,
                parsed-IsGranted remote tickets lookup now req n bytes
                    (rw (handle_request, within, whole, e) at h),
              )
            ]
          ]
        ]
    stream-IsGranted remote tickets lookup now (a ∷ b ∷ c ∷ []) n bytes h = cc
    stream-IsGranted remote tickets lookup now (a ∷ b ∷ []) n bytes h = cc
    stream-IsGranted remote tickets lookup now (a ∷ []) n bytes h = cc
    stream-IsGranted remote tickets lookup now [] n bytes h = cc

module _ (host : Host) (to_postcard : Manifest → Option Bytes)
    (from_postcard : Bytes → Option Manifest) (digest : Bytes → Bytes)
    (lookup : Nonce → Option OfferRecord) where
  -- After a revocation that succeeded, a request of version 1 for the nonce is refused as an invalid
  -- ticket, whoever asks, for whatever, at whatever time, and whatever is issued, revoked or
  -- compacted in between.
  pub revoked-handle_parsed :
      (t u : IssuedTickets) (was_live : Bool) (remote : Bytes) (now : ℕ) (req : Request)
      → (revoke t req.nonce).0 ≡ ok was_live
      → Later (revoke t req.nonce).1 u
      → req.v ≡ 1
      → handle_parsed host to_postcard from_postcard digest remote u lookup now req
        ≡ ok (error_reply (refused invalid_ticket))
  unfolding handle_parsed
  revoked-handle_parsed t u b remote now req h l v =
      rw ((eqb_iff req.v 1).1 v, revoked-never-authorized t u req.nonce b remote now h l) refl

  -- The recipient of a live ticket that asks for the offered file from an offset within it gets the
  -- file's bytes from there on, if the file stands at the offer's path with the ticket's size.
  pub recipient_is_served :
      (tickets : IssuedTickets) (remote : Bytes) (now : ℕ) (nonce : Nonce) (path : HostPath)
      (file_ref : FileRef) (offset : ℕ) (whole : Bytes)
      → authorize tickets nonce remote now ≡ ok tt
      → lookup nonce
        ≡ some (record { nonce = nonce; payload = file_offer path file_ref; grant = download })
      → host.metadata path ≡ some (record { is_file = true; len = file_ref.size })
      → host.content path ≡ some whole
      → offset ≤ file_ref.size
      → handle_parsed host to_postcard from_postcard digest remote tickets lookup now
          (record { v = 1; nonce = nonce; op = file_op file_ref.name offset })
        ≡ ok (stream (file_ref.size - offset) (drop offset whole))
  unfolding handle_parsed dispatch
  recipient_is_served tickets remote now nonce path file_ref offset whole a l m c le =
      rw (a, l)
        ((serve_file_op_iff host path file_ref file_ref.name offset (file_ref.size - offset)
            (drop offset whole)).1
          (refl, (whole, m, c, le, refl, refl)))
