-- ===== src/Tools/Container/Ipc.antt =====
-- tools/container/ipc.rs: frames with a length prefix over a stream of bytes.
pub mod Framing
use cherub.Base.{
  ℕ, ◌+◌, ◌*◌, ◌/◌, ◌%◌, ◌^◌, Bool, Option, none, some, List, [], ◌∷◌, ◌++◌, if◌then◌else◌, ltb,
  leb, length, take, drop,
}
use cherub.Base.Bytes.{Str, lit}
use cherub.Base.Result.{Result, ok, err, ◌>>=◌}
use cherub.Json.{Value}

-- 16 MiB.
abbrev pub max_frame_bytes : ℕ
max_frame_bytes = 16 * 1024 * 1024

-- The ids are u64.
pub data RuntimeMessage (N : Type 0) : Type 0 where
  execute : ℕ → Value N → Option (Value N) → RuntimeMessage N
  host_response : ℕ → Value N → RuntimeMessage N
  shutdown : RuntimeMessage N

pub data ToolMessage (N : Type 0) : Type 0 where
  registration : Str → Str → Value N → ToolMessage N
  result : ℕ → Option Str → Option Str → ToolMessage N
  host_call : ℕ → Str → Value N → ToolMessage N
  log : Str → Str → ToolMessage N

-- The errors, whose texts are not modelled: a frame too large to send or to receive, a stream that
-- ends within a frame, a message that cannot be written or read as JSON.
pub data IpcError : Type 0 where
  outbound_too_large inbound_too_large : ℕ → IpcError
  read_failed serialize_failed deserialize_failed : IpcError

-- `len.to_be_bytes()` and `u32::from_be_bytes(len_buf)`.
abbrev pub to_be_bytes : ℕ → List ℕ
to_be_bytes n = (n / 2 ^ 24 % 256) ∷ (n / 2 ^ 16 % 256) ∷ (n / 2 ^ 8 % 256) ∷ (n % 256) ∷ []

abbrev pub from_be_bytes : ℕ → ℕ → ℕ → ℕ → ℕ
from_be_bytes a b c d = a * 2 ^ 24 + b * 2 ^ 16 + c * 2 ^ 8 + d

-- `write_frame`: the bytes that the stream has after it.
unfoldable pub write_frame : List ℕ → Str → Result IpcError (List ℕ)
write_frame stream payload =
    if ltb max_frame_bytes (length payload)
    then err (outbound_too_large (length payload))
    else ok (stream ++ to_be_bytes (length payload % 2 ^ 32) ++ payload)

-- `stream.read_exact(..)` of n bytes: those and the stream after them.
unfoldable pub read_exact : ℕ → List ℕ → Result IpcError (Str × List ℕ)
read_exact n stream =
    if ltb (length stream) n then err read_failed else ok (take n stream, drop n stream)

unfoldable pub read_payload : ℕ → List ℕ → Result IpcError (Str × List ℕ)
unfolding read_exact
read_payload len stream =
    if ltb max_frame_bytes len then err (inbound_too_large len) else read_exact len stream

-- `read_frame`: the payload and the stream after it.
unfoldable pub read_frame : List ℕ → Result IpcError (Str × List ℕ)
unfolding read_payload
read_frame (a ∷ (b ∷ (c ∷ (d ∷ stream)))) = read_payload (from_be_bytes a b c d) stream
read_frame [] = err read_failed
read_frame (a ∷ []) = err read_failed
read_frame (a ∷ (b ∷ [])) = err read_failed
read_frame (a ∷ (b ∷ (c ∷ []))) = err read_failed

module _ {N : Type 0} (to_vec : RuntimeMessage N → Option Str)
    (from_slice : Str → Option (ToolMessage N)) where
  send_payload : Option Str → List ℕ → Result IpcError (List ℕ)
  unfolding write_frame
  send_payload none stream = err serialize_failed
  send_payload (some payload) stream = write_frame stream payload

  -- `IpcTransport::send`; serde_json is given.
  unfoldable pub send : RuntimeMessage N → List ℕ → Result IpcError (List ℕ)
  unfolding send_payload
  send msg stream = send_payload (to_vec msg) stream

  parsed : Option (ToolMessage N) → List ℕ → Result IpcError (ToolMessage N × List ℕ)
  parsed none stream = err deserialize_failed
  parsed (some msg) stream = ok (msg, stream)

  -- `IpcTransport::recv`.
  unfoldable pub recv : List ℕ → Result IpcError (ToolMessage N × List ℕ)
  unfolding parsed read_frame
  recv stream = read_frame stream >>= (λ frame. parsed (from_slice frame.0) frame.1)
