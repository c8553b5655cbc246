-- ===== src/Net/Response.antt =====
-- What the receiving side of crates/mascara-net/src/engine.rs reads before the body: the status, then
-- the sender's reason or the announced length.
use mascara.Common.{
  ℕ, ◌+◌, ◌-◌, ◌*◌, not, Option, none, some, [], ◌∷◌, Result, ok, err, ltb, eqb, if◌then◌else◌,
  list_eq, nat_eq, length, take,
}
use mascara.Common.Text.{Text, Bytes}
use mascara.Net.Error.{
  NetError, protocol, io, refused, error_too_large, offset_beyond_size, inconsistent_response,
}
use mascara.Net.Listener.Serve.{max_request_frame}

-- `read_u8`, `read_u32_le`, `read_u64_le`.
abbrev pub read_u8 : Bytes → Option (ℕ × Bytes)
read_u8 [] = none
read_u8 (a ∷ rest) = some (a, rest)

abbrev pub read_u32_le : Bytes → Option (ℕ × Bytes)
read_u32_le (a ∷ b ∷ c ∷ d ∷ rest) = some (a + 256 * b + 65536 * c + 16777216 * d, rest)
read_u32_le short = none

abbrev pub read_u64_le : Bytes → Option (ℕ × Bytes)
read_u64_le (a ∷ b ∷ c ∷ d ∷ e ∷ f ∷ g ∷ h ∷ rest) = some (
  a + 256 * b + 65536 * c + 16777216 * d + 4294967296 * (e + 256 * f + 65536 * g + 16777216 * h),
  rest,
)
read_u64_le short = none

-- The error frame; `lossy` is `String::from_utf8_lossy`.
unfoldable pub read_refusal : (Bytes → Text) → Bytes → NetError
read_refusal lossy frame = elim (read_u32_le frame) [
  | none ↦ io
  | some (len, rest) ↦
      if ltb max_request_frame len
      then protocol (error_too_large len)
      else if ltb (length rest) len
      then io
      else refused (lossy (take len rest))
]

-- The status and the announced length, checked against the ticket's size.
unfoldable pub read_response : (Bytes → Text) → Bytes → ℕ → ℕ → Result ℕ NetError
unfolding read_refusal
read_response lossy frame size offset = elim (read_u8 frame) [
  | none ↦ err io
  | some (status, rest) ↦
      if not (eqb status 0) then err (read_refusal lossy rest) else elim (read_u64_le rest) [
        | none ↦ err io
        | some (remaining, _) ↦
            if ltb size offset
            then err (protocol (offset_beyond_size offset size))
            else if not (eqb remaining (size - offset))
            then err (protocol (inconsistent_response remaining (size - offset)))
            else ok remaining
      ]
]
