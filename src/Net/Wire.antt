-- ===== src/Net/Wire.antt =====
-- What engine.rs and listener.rs write to a stream: the frame of a request, and the reply with its
-- status. A connection is the server's answer to the bytes that it was sent.
use mascara.Common.{
  ℕ, ◌+◌, ◌*◌, ◌/◌, ◌%◌, ◌^◌, ◌<◌, ◌≡◌, ap, some, [], ◌∷◌, ◌++◌, Result, ok, err, length, arith,
}
use mascara.Common.Text.{Bytes}
use mascara.Net.Error.{NetError}
use mascara.Net.Response.{read_u32_le, read_u64_le}
use mascara.Net.Listener.Serve.{Message, Reply, error_reply, stream}

-- `write_u32_le`, `write_u64_le`.
unfoldable pub write_u32_le : ℕ → Bytes
write_u32_le n = n % 256 ∷ n / 256 % 256 ∷ n / 65536 % 256 ∷ n / 16777216 % 256 ∷ []

unfoldable pub write_u64_le : ℕ → Bytes
unfolding write_u32_le
write_u64_le n = write_u32_le n ++ write_u32_le (n / 4294967296)

-- A request's frame; the length is cast to 32 bits.
unfoldable pub request_frame : Bytes → Bytes
unfolding write_u32_le
request_frame json = write_u32_le (length json % 2 ^ 32) ++ json

-- A reply as it is written; `utf8` is the reason's text.
unfoldable pub reply_frame : (Message → Bytes) → Reply → Bytes
reply_frame utf8 (error_reply why) = 1 ∷ (write_u32_le (length (utf8 why) % 2 ^ 32) ++ utf8 why)
reply_frame utf8 (stream n bytes) = 0 ∷ (write_u64_le n ++ bytes)

-- What the peer reads when the handler returns; on an error of the stream nothing was written.
unfoldable pub answer_frame : (Message → Bytes) → Result Reply NetError → Bytes
unfolding reply_frame
answer_frame utf8 (ok reply) = reply_frame utf8 reply
answer_frame utf8 (err why) = []

-- The number that four bytes stand for.
abbrev pub from_quarters : ℕ → ℕ
from_quarters n =
    n % 256 + 256 * (n / 256 % 256) + 65536 * (n / 65536 % 256) + 16777216 * (n / 16777216 % 256)

pub quarters : (n : ℕ) → from_quarters n ≡ n % 4294967296
quarters n = omega arith

pub read-write_u32 :
    (n : ℕ) (rest : Bytes) → n < 2 ^ 32 → read_u32_le (write_u32_le n ++ rest) ≡ some (n, rest)
unfolding write_u32_le
read-write_u32 n rest h = ap (λ (k : ℕ). some (k, rest)) (omega (arith, quarters n, h))

pub read-write_u64 :
    (n : ℕ) (rest : Bytes) → n < 2 ^ 64 → read_u64_le (write_u64_le n ++ rest) ≡ some (n, rest)
unfolding write_u64_le write_u32_le
read-write_u64 n rest h =
    ap (λ (k : ℕ). some (k, rest)) (omega (arith, quarters n, quarters (n / 4294967296), h))
