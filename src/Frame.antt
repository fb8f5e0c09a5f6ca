-- ===== src/Frame.antt =====
-- The frames that utils/WebSocket.c sends: `WebSocket_calculateFrameHeaderSize`,
-- `WebSocket_buildFrame` and `WebSocket_unmaskData`, for a connection that has been upgraded to a
-- websocket.
pub mod Masking
mod Runs
use Prim.Native.Nat.{bit_and, bit_or, bit_xor}
use mqtt_client.Packet.{no_mask}
use mqtt_client.Packet.Send.{contents, total_length}
use mqtt_client.Prelude.{
  Bool, List, Option, [], drop, get_or, if◌then◌else◌, length, ltb, none, not, some, take, true, ℕ,
  ◌%◌, ◌&&◌, ◌++◌, ◌+◌, ◌-◌, ◌/◌, ◌==◌, ◌^◌, ◌||◌, ◌∷◌,
}
use mqtt_client.Prelude.Predicates.{Bytes}
use mqtt_client.Prelude.Run.{Run, done, fault, ◌>>=◌}
use mqtt_client.Transport.{PacketBuffers}
use mqtt_client.Wire.{fresh, put}

-- `WebSocket_calculateFrameHeaderSize` for `net->websocket`.
unfoldable pub frame_header_size : (mask_data : Bool) → (data_len : ℕ) → ℕ
frame_header_size mask_data data_len =
    (if ltb data_len 126
      then 2
      else if ltb data_len 65536
      then 4
      else if ltb data_len (2 ^ 64 - 1)
      then 10
      else 0)
    + (if mask_data then 4 else 0)

-- `mask[idx % 4]`.
unfoldable pub mask_at : Bytes → ℕ → ℕ
mask_at mask idx = get_or mask (idx % 4) 0

-- A buffer with the mask applied from `idx` on.
unfoldable pub xor_bytes : (mask : Bytes) → (idx : ℕ) → Bytes → Bytes
xor_bytes mask idx [] = []
xor_bytes mask idx (b ∷ bs) = bit_xor b (mask_at mask idx) ∷ xor_bytes mask (idx + 1) bs

-- The loop over the variable data buffers, from the one with index `i` on.
unfoldable pub mask_buffers :
    (new_mask : Bool) → (mask : Bytes) → (i idx : ℕ) → List Bytes → List Bytes
mask_buffers new_mask mask i idx [] = []
mask_buffers new_mask mask i idx (b ∷ bufs) =
    let rest = mask_buffers new_mask mask (i + 1) (idx + length b) bufs in
    if not new_mask && (i == 2 || length bufs == 0) then b ∷ bufs else xor_bytes mask idx b ∷ rest

-- The first two bytes and the extended payload length; `mask_bit` is the masking bit of the second
-- byte.
unfoldable pub start_bytes : (opcode mask_bit data_len : ℕ) → Bytes
start_bytes opcode mask_bit data_len =
    let first = bit_or 128 (bit_and opcode 0x0F) in
    if ltb data_len 126
    then first ∷ bit_or mask_bit data_len ∷ []
    else if ltb data_len 65536
    then first ∷ bit_or mask_bit 126 ∷ data_len / 256 % 256 ∷ data_len % 256 ∷ []
    else first
      ∷ bit_or mask_bit 127
      ∷ data_len / 2 ^ 56 % 256
      ∷ data_len / 2 ^ 48 % 256
      ∷ data_len / 2 ^ 40 % 256
      ∷ data_len / 2 ^ 32 % 256
      ∷ data_len / 2 ^ 24 % 256
      ∷ data_len / 2 ^ 16 % 256
      ∷ data_len / 256 % 256
      ∷ data_len % 256
      ∷ []

-- With more data than a frame can hold the code stores the mask before the buffer.
unfoldable pub frame_start : (opcode mask_bit data_len : ℕ) → Run Bytes
frame_start opcode mask_bit data_len =
    if ltb data_len (2 ^ 64 - 1) then done (start_bytes opcode mask_bit data_len) else fault

-- The mask that a frame has: a new one, whose bytes are `rand() % UINT8_MAX`, if the first byte is 0.
unfoldable pub is_new_mask : PacketBuffers → Bool
is_new_mask bufs = get_or bufs.mask 0 0 == 0

unfoldable pub frame_mask : (rand : ℕ → ℕ) → PacketBuffers → Bytes
frame_mask rand bufs =
    if is_new_mask bufs
    then rand 0 % 255 ∷ rand 1 % 255 ∷ rand 2 % 255 ∷ rand 3 % 255 ∷ []
    else bufs.mask

-- The header is written to a place of `frame_header_size` bytes, and a byte of it that nothing writes
-- is a fault.
unfoldable pub frame_header : (opcode data_len : ℕ) → (mask : Bytes) → Run Bytes
frame_header opcode data_len mask = do
  start ← frame_start opcode 128 data_len
  c ← put start (fresh (frame_header_size true data_len))
  c ← put mask c
  contents c

-- The number of bytes of the first buffer that the loop of `int` counters goes through: from the
-- header's size to the length of the frame's block, which is converted to `int`.
unfoldable pub masked_len : (header_size len : ℕ) → ℕ
masked_len header_size len =
    let end = (len + header_size) % 2 ^ 32 in if ltb end (2 ^ 31) then end - header_size else 0

-- The first `n` bytes of the buffer masked, and the rest as it is.
unfoldable pub mask_first : (mask : Bytes) → (n : ℕ) → Bytes → Bytes
mask_first mask n buf0 = xor_bytes mask 0 (take n buf0) ++ drop n buf0

-- `WebSocket_buildFrame` with `mask_data`, which all callers set: the frame header with the first
-- buffer behind it, or `none` where `malloc` fails, and the buffers afterwards.
pub build_frame :
    (mem : Bool)
    → (rand : ℕ → ℕ) → (opcode : ℕ) → (buf0 : Bytes) → PacketBuffers
    → Run (Option Bytes × PacketBuffers)
build_frame mem rand opcode buf0 bufs =
    let data_len = length buf0 + total_length bufs.buffers in
    let mask = frame_mask rand bufs in
    let masked = masked_len (frame_header_size true data_len) (length buf0) in
    let built = (do
      header ← frame_header opcode data_len mask
      done (
        some (header ++ mask_first mask masked buf0),
        record {
          buffers = mask_buffers (is_new_mask bufs) mask 0 masked bufs.buffers;
          frees = bufs.frees;
          mask = mask;
        },
      )) in
    if mem then built else done (none, bufs)

unmask_buffers : (mask : Bytes) → (idx : ℕ) → List Bytes → List Bytes
unmask_buffers mask idx [] = []
unmask_buffers mask idx (b ∷ bufs) =
    xor_bytes mask idx b ∷ unmask_buffers mask (idx + length b) bufs

-- `WebSocket_unmaskData`.
pub unmask_data : (idx : ℕ) → PacketBuffers → PacketBuffers
unfolding unmask_buffers
unmask_data idx bufs = record {
  buffers = unmask_buffers bufs.mask idx bufs.buffers;
  frees = bufs.frees;
  mask = no_mask;
}
