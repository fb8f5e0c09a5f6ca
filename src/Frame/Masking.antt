-- ===== src/Frame/Masking.antt =====
-- A frame that is built with a new mask carries the data of the buffers, and unmasking restores them.
use Prim.Native.Nat.{bit_xor}
use mathlib.Core.List.{append-nil}
use mqtt_client.Frame.{
  build_frame, frame_header, frame_header_size, frame_mask, frame_start, is_new_mask, mask_at,
  mask_buffers, mask_first, masked_len, start_bytes, unmask_buffers, unmask_data, xor_bytes,
}
use mqtt_client.Packet.Send.{contents, total_length}
use mqtt_client.Packet.Send.Frames.{joined}
use mqtt_client.Prelude.{
  List, [], ap, arith, drop, get_or, length, length-append, ltb, refl, some, suc, sym, take, true,
  zero, ℕ, ◌%◌, ◌++◌, ◌+◌, ◌-◌, ◌<◌, ◌^◌, ◌∙◌, ◌∷◌, ◌≡◌,
}
use mqtt_client.Prelude.Bits.{bit_xor_twice}
use mqtt_client.Prelude.Predicates.{All, All-append, AllBytes, Bytes, IsByte}
use mqtt_client.Prelude.Run.{bind_assoc, done, ◌>>=◌}
use mqtt_client.Transport.{PacketBuffers}
use mqtt_client.Wire.{fresh, put}
use mqtt_client.Wire.Writing.{put-put, put_exact}
use native.Mathlib.Decide.{dec_lt}

xor_bytes-append :
    (mask : Bytes) (idx : ℕ) (xs ys : Bytes)
    → xor_bytes mask idx (xs ++ ys) ≡ xor_bytes mask idx xs ++ xor_bytes mask (idx + length xs) ys
unfolding xor_bytes
xor_bytes-append mask idx [] ys = ap (λ k. xor_bytes mask k ys) (omega arith)
xor_bytes-append mask idx (x ∷ xs) ys =
    ap (λ r. bit_xor x (mask_at mask idx) ∷ r)
      (xor_bytes-append mask (idx + 1) xs ys
        ∙ ap (λ k. xor_bytes mask (idx + 1) xs ++ xor_bytes mask k ys) (omega arith))

length-xor_bytes :
    (mask : Bytes) (idx : ℕ) (xs : Bytes) → length (xor_bytes mask idx xs) ≡ length xs
unfolding xor_bytes
length-xor_bytes mask idx [] = refl
length-xor_bytes mask idx (x ∷ xs) = ap suc (length-xor_bytes mask (idx + 1) xs)

get_or-IsByte : (mask : Bytes) (i : ℕ) → AllBytes mask → get_or mask i 0 < 256
get_or-IsByte [] i h = omega arith
get_or-IsByte (m ∷ mask) zero h = h.0
get_or-IsByte (m ∷ mask) (suc i) h = get_or-IsByte mask i h.1

-- Applied twice, a mask is taken off.
pub xor_bytes-xor_bytes :
    (mask : Bytes) (idx : ℕ) (xs : Bytes)
    → AllBytes mask
    → AllBytes xs
    → xor_bytes mask idx (xor_bytes mask idx xs) ≡ xs
unfolding xor_bytes mask_at
xor_bytes-xor_bytes mask idx [] hm h = refl
xor_bytes-xor_bytes mask idx (x ∷ xs) hm (hx, h) =
    rw
      (
        bit_xor_twice x (get_or mask (idx % 4) 0) hx (get_or-IsByte mask (idx % 4) hm),
        xor_bytes-xor_bytes mask (idx + 1) xs hm h,
      )
      refl

-- With a new mask, the buffers are masked as the one block that they make up.
mask_buffers-joined :
    (mask : Bytes) (i idx : ℕ) (bufs : List Bytes)
    → joined (mask_buffers true mask i idx bufs) ≡ xor_bytes mask idx (joined bufs)
unfolding mask_buffers joined
mask_buffers-joined mask i idx [] = unfold xor_bytes in refl
mask_buffers-joined mask i idx (b ∷ bufs) =
    rw (mask_buffers-joined mask (i + 1) (idx + length b) bufs, xor_bytes-append) refl

unmask_buffers-mask_buffers :
    (mask : Bytes) (i idx : ℕ) (bufs : List Bytes)
    → AllBytes mask
    → All AllBytes bufs
    → unmask_buffers mask idx (mask_buffers true mask i idx bufs) ≡ bufs
unfolding unmask_buffers mask_buffers
unmask_buffers-mask_buffers mask i idx [] hm h = refl
unmask_buffers-mask_buffers mask i idx (b ∷ bufs) hm (hb, h) =
    rw
      (
        length-xor_bytes,
        xor_bytes-xor_bytes mask idx b hm hb,
        unmask_buffers-mask_buffers mask (i + 1) (idx + length b) bufs hm h,
      )
      refl

length-start_bytes :
    (opcode n : ℕ)
    → n < 2 ^ 64 - 1
    → frame_header_size true n ≡ length (start_bytes opcode 128 n) + 4
unfolding start_bytes frame_header_size
length-start_bytes opcode n h = elim (dec_lt n 126) [
  | yes short ↦ ground arith
  | no more ↦ elim (dec_lt n 65536) [ yes middle ↦ ground arith | no long ↦ ground arith ]
]

-- The header of a frame with a mask of four bytes fills its place exactly.
header_filled :
    (opcode n : ℕ) (mask : Bytes)
    → n < 2 ^ 64 - 1
    → length mask ≡ 4
    → (put (start_bytes opcode 128 n) (fresh (frame_header_size true n)) >>= put mask)
      ≡ done (record { written = start_bytes opcode 128 n ++ mask; room = 0 })
header_filled opcode n mask h four =
    let start = start_bytes opcode 128 n in
    let size : frame_header_size true n ≡ length (start ++ mask) =
      omega (arith, length-start_bytes opcode n h, length-append start mask) in
    put-put start mask (fresh (frame_header_size true n)) ∙ rw size (put_exact (start ++ mask))

frame_header_lem :
    (opcode n : ℕ) (mask : Bytes)
    → n < 2 ^ 64 - 1
    → length mask ≡ 4
    → frame_header opcode n mask ≡ done (start_bytes opcode 128 n ++ mask)
unfolding frame_header frame_start
frame_header_lem opcode n mask h four =
    let test : ltb n (2 ^ 64 - 1) ≡ true = ground arith in
    rw test (
      sym (
        bind_assoc (put (start_bytes opcode 128 n) (fresh (frame_header_size true n))) (put mask)
          contents)
      ∙ rw (header_filled opcode n mask h four) (unfold contents in refl))

joined-AllBytes : (bufs : List Bytes) → All AllBytes bufs → AllBytes (joined bufs)
unfolding joined
joined-AllBytes [] h = tt
joined-AllBytes (b ∷ bufs) (hb, h) = All-append IsByte b (joined bufs) hb (joined-AllBytes bufs h)

-- A new mask.
new_mask_lem :
    (rand : ℕ → ℕ) (bufs : PacketBuffers)
    → is_new_mask bufs ≡ true
    → (length (frame_mask rand bufs) ≡ 4) × AllBytes (frame_mask rand bufs)
unfolding frame_mask
new_mask_lem rand bufs h = rw h (refl, ground arith)

frame_header_size-small : (n : ℕ) → frame_header_size true n < 15
unfolding frame_header_size
frame_header_size-small n = ground arith

-- A first buffer whose place in the frame an `int` can count is masked as a whole.
masked_len_lem : (n len : ℕ) → len < 2 ^ 31 - 14 → masked_len (frame_header_size true n) len ≡ len
unfolding masked_len
masked_len_lem n len h =
    let size = frame_header_size true n in
    let little = frame_header_size-small n in
    let same : (len + size) % 2 ^ 32 ≡ len + size = omega arith in
    let small : ltb (len + size) (2 ^ 31) ≡ true = ground arith in rw (same, small) (omega arith)

mask_first-length : (mask buf0 : Bytes) → mask_first mask (length buf0) buf0 ≡ xor_bytes mask 0 buf0
unfolding mask_first
mask_first-length mask buf0 =
    rw (take-length buf0, drop-length buf0) (append-nil (xor_bytes mask 0 buf0))
  where
    take-length : (xs : Bytes) → take (length xs) xs ≡ xs
    take-length [] = refl
    take-length (x ∷ xs) = ap (λ r. x ∷ r) (take-length xs)

    drop-length : (xs : Bytes) → drop (length xs) xs ≡ []
    drop-length [] = refl
    drop-length (x ∷ xs) = drop-length xs

-- `WebSocket_buildFrame`, where memory is given, for buffers without a mask, of together less than
-- 2 ^ 64 - 1 bytes and the first of less than 2 ^ 31 - 14: the frame consists of a header, which fills its place exactly and ends with the new mask, and of the bytes of
-- the first buffer and of the others, which come out when the mask is applied once more. And
-- `WebSocket_unmaskData` gives the other buffers back.
pub build_frame-unmask_data :
    (rand : ℕ → ℕ) (opcode : ℕ) (buf0 : Bytes) (bufs : PacketBuffers)
    → is_new_mask bufs ≡ true
    → AllBytes buf0
    → All AllBytes bufs.buffers
    → length buf0 + total_length bufs.buffers < 2 ^ 64 - 1
    → length buf0 < 2 ^ 31 - 14
    → let n = length buf0 + total_length bufs.buffers in
      let mask = frame_mask rand bufs in
      (body : Bytes) × (bufs' : PacketBuffers) × (build_frame true rand opcode buf0 bufs
        ≡ done (some (start_bytes opcode 128 n ++ mask ++ body), bufs'))
      × (xor_bytes mask 0 (body ++ joined bufs'.buffers) ≡ buf0 ++ joined bufs.buffers)
      × ((unmask_data (length buf0) bufs').buffers ≡ bufs.buffers)
unfolding build_frame unmask_data
build_frame-unmask_data rand opcode buf0 bufs new h0 h small counted =
    let n = length buf0 + total_length bufs.buffers in
    let mask = frame_mask rand bufs in
    let (four, bytes) = new_mask_lem rand bufs new in
    let all = All-append IsByte buf0 (joined bufs.buffers) h0 (joined-AllBytes bufs.buffers h) in
    (
      xor_bytes mask 0 buf0,
      record {
        buffers = mask_buffers true mask 0 (length buf0) bufs.buffers;
        frees = bufs.frees;
        mask = mask;
      },
      rw
          (
            frame_header_lem opcode n mask small four,
            new,
            masked_len_lem n (length buf0) counted,
            mask_first-length mask buf0,
          )
          refl,
      ap (λ r. xor_bytes mask 0 (xor_bytes mask 0 buf0 ++ r))
            (mask_buffers-joined mask 0 (length buf0) bufs.buffers)
          ∙ ap (xor_bytes mask 0) (
              ap (λ k. xor_bytes mask 0 buf0 ++ xor_bytes mask k (joined bufs.buffers))
                (omega arith)
              ∙ sym (xor_bytes-append mask 0 buf0 (joined bufs.buffers)))
          ∙ xor_bytes-xor_bytes mask 0 (buf0 ++ joined bufs.buffers) bytes all,
      unmask_buffers-mask_buffers mask 0 (length buf0) bufs.buffers bytes h,
    )
