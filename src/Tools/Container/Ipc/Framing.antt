-- ===== src/Tools/Container/Ipc/Framing.antt =====
-- tools/container/ipc.rs: reading what was written.
use cherub.Base.{
  ℕ, ◌/◌, ◌%◌, ◌^◌, ◌≤◌, ◌<◌, ◌≡◌, refl, ap, sym, ◌∙◌, List, [], ◌∷◌, ◌++◌, append_assoc,
  append-nil, false, All, suc, zero, ltb, length, length-append, take-append, drop-append, arith,
}
use cherub.Base.Bytes.{Str}
use cherub.Base.Result.{Result, ok, ◌>>=◌}
use cherub.Tools.Container.Ipc.{
  max_frame_bytes, to_be_bytes, from_be_bytes, IpcError, write_frame, read_exact, read_payload,
  read_frame,
}

from_be_bytes-to_be_bytes :
    (n : ℕ)
    → n < 2 ^ 32
    → from_be_bytes (n / 2 ^ 24 % 256) (n / 2 ^ 16 % 256) (n / 2 ^ 8 % 256) (n % 256) ≡ n
from_be_bytes-to_be_bytes n h = omega arith

read_exact-append :
    (payload rest : Str) → read_exact (length payload) (payload ++ rest) ≡ ok (payload, rest)
unfolding read_exact
read_exact-append payload rest =
    let long : ltb (length (payload ++ rest)) (length payload) ≡ false =
      ground (arith, length-append payload rest) in
    rw (long, take-append payload rest, drop-append payload rest) refl

-- A payload that is not too large, and what is written of it.
abbrev pub IsSendable : Str → Type 0
IsSendable payload = length payload ≤ max_frame_bytes

abbrev frame : Str → List ℕ
frame payload = to_be_bytes (length payload % 2 ^ 32) ++ payload

write_frame-IsSendable :
    (stream : List ℕ) (payload : Str)
    → IsSendable payload
    → write_frame stream payload ≡ ok (stream ++ frame payload)
unfolding write_frame
write_frame-IsSendable stream payload h =
    let fits : ltb max_frame_bytes (length payload) ≡ false = ground arith in
    rw fits (ap ok (append_assoc stream (to_be_bytes (length payload % 2 ^ 32)) payload))

read_frame-frame :
    (payload rest : Str)
    → IsSendable payload
    → read_frame (frame payload ++ rest) ≡ ok (payload, rest)
unfolding read_frame read_payload
read_frame-frame payload rest h =
    let fits : ltb max_frame_bytes (length payload) ≡ false = ground arith in
    let prefix : length payload % 2 ^ 32 ≡ length payload = omega arith in
    rw (prefix, from_be_bytes-to_be_bytes (length payload) (omega arith), fits)
      (read_exact-append payload rest)

-- Payloads written one after the other, and as many read one after the other.
abbrev pub write_frames : List Str → List ℕ → Result IpcError (List ℕ)
write_frames [] stream = ok stream
write_frames (payload ∷ payloads) stream = write_frame stream payload >>= write_frames payloads

abbrev pub read_frames : ℕ → List ℕ → Result IpcError (List Str × List ℕ)
read_frames zero stream = ok ([], stream)
read_frames (suc n) stream =
    read_frame stream
    >>= (λ first. read_frames n first.1 >>= (λ others. ok (first.0 ∷ others.0, others.1)))

abbrev frames : List Str → List ℕ
frames [] = []
frames (payload ∷ payloads) = frame payload ++ frames payloads

write_frames-frames :
    (payloads : List Str) (stream : List ℕ)
    → All IsSendable payloads
    → write_frames payloads stream ≡ ok (stream ++ frames payloads)
write_frames-frames [] stream h = ap ok (sym (append-nil stream))
write_frames-frames (payload ∷ payloads) stream h = rw (write_frame-IsSendable stream payload h.0) (
    write_frames-frames payloads (stream ++ frame payload) h.1
    ∙ ap ok (append_assoc stream (frame payload) (frames payloads)))

read_frames-frames :
    (payloads : List Str) (rest : List ℕ)
    → All IsSendable payloads
    → read_frames (length payloads) (frames payloads ++ rest) ≡ ok (payloads, rest)
read_frames-frames [] rest h = refl
read_frames-frames (payload ∷ payloads) rest h =
    rw
      (
        append_assoc (frame payload) (frames payloads) rest,
        read_frame-frame payload (frames payloads ++ rest) h.0,
        read_frames-frames payloads rest h.1,
      )
      refl

-- Payloads of at most 16 MiB each, written to a stream one after the other, are all accepted, and
-- as many reads give them back, in order and byte by byte, with nothing left on the stream.
pub read_frames-write_frames :
    (payloads : List Str)
    → All IsSendable payloads
    → (write_frames payloads [] >>= read_frames (length payloads)) ≡ ok (payloads, [])
read_frames-write_frames payloads h = rw (write_frames-frames payloads [] h) (
    ap (λ stream. read_frames (length payloads) stream) (sym (append-nil (frames payloads)))
    ∙ read_frames-frames payloads [] h)
