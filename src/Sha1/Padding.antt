-- ===== src/Sha1/Padding.antt =====
-- `SHA1_Final`: the padding.
use mathlib.Core.List.{append_assoc}
use mqtt_client.Prelude.{
  [], ap, arith, false, length, length-append, length-replicate, refl, replicate, suc, sym, take,
  true, zero, ℕ, ◌%◌, ◌*◌, ◌++◌, ◌+◌, ◌-◌, ◌/◌, ◌<◌, ◌==◌, ◌^◌, ◌∙◌, ◌∷◌, ◌≡◌, ◌≤◌,
}
use mqtt_client.Prelude.Predicates.{Bytes}
use mqtt_client.Sha1.{
  Registers, ShaCtx, digest, flush, pad, pad_amount, process_block, sha1_final, sha1_init,
  sha1_update, total_bits, w32, word_bytes,
}
use mqtt_client.Sha1.Absorb.{
  IsOpen, absorb, absorb_all, absorb_all-append, absorb_all-fill, sha1_update-absorb_all,
}
use native.Mathlib.Decide.{dec_lt}

absorb-length :
    (ctx : ShaCtx) (b : ℕ)
    → IsOpen ctx
    → length (absorb ctx b).buffer ≡ (length ctx.buffer + 1) % 64
unfolding absorb flush
absorb-length ctx b room =
    let sized = length-append ctx.buffer (b ∷ []) in
    elim (dec_lt (length ctx.buffer) 63) [
      | yes before ↦
          let test : (length (ctx.buffer ++ b ∷ []) == 64) ≡ false = ground arith in
          rw test (omega arith)
      | no last ↦
          let test : (length (ctx.buffer ++ b ∷ []) == 64) ≡ true = ground arith in
          rw test (omega arith)
    ]

absorb_all-length :
    (ctx : ShaCtx) (cur : Bytes)
    → IsOpen ctx
    → length (absorb_all ctx cur).buffer ≡ (length ctx.buffer + length cur) % 64
unfolding absorb_all
absorb_all-length ctx [] room = omega arith
absorb_all-length ctx (b ∷ cur) room =
    let one = absorb-length ctx b room in
    omega (arith, one, absorb_all-length (absorb ctx b) cur (omega (arith, one)))

absorb-total : (ctx : ShaCtx) (b : ℕ) → (absorb ctx b).total ≡ w32 (ctx.total + 1)
unfolding absorb flush
absorb-total ctx b = ground arith

absorb_all-total :
    (ctx : ShaCtx) (cur : Bytes)
    → ctx.total < 2 ^ 32
    → (absorb_all ctx cur).total ≡ (ctx.total + length cur) % 2 ^ 32
unfolding absorb_all w32
absorb_all-total ctx [] h = omega arith
absorb_all-total ctx (b ∷ cur) h =
    let one = absorb-total ctx b in
    omega (arith, one, absorb_all-total (absorb ctx b) cur (omega (arith, one)))

abbrev zeros : ℕ → Bytes
zeros n = replicate n 0

take-replicate : (k n : ℕ) → k ≤ n → take k (zeros n) ≡ zeros k
take-replicate zero n h = refl
take-replicate (suc k) zero h = absurd (omega arith)
take-replicate (suc k) (suc n) h = ap (λ xs. 0 ∷ xs) (take-replicate k n (omega arith))

-- The message with its padding, by the standard: the byte 0x80, as few zeros as are needed, and the
-- number of bits in 64 bits, of which the upper half is zero for messages below 2 ^ 29 bytes.
unfoldable pub pad_bytes : (len : ℕ) → Bytes
pad_bytes len = 0x80 ∷ replicate ((119 - len % 64) % 64) 0

unfoldable pub padded_message : Bytes → Bytes
padded_message msg = msg ++ pad_bytes (length msg) ++ word_bytes 0 ++ word_bytes (length msg * 8)

take-pad :
    (size : ℕ) → size < 64 → take (pad_amount size) pad ≡ 0x80 ∷ replicate ((119 - size) % 64) 0
unfolding pad_amount
take-pad size h =
    let z = (119 - size) % 64 in
    let amount : pad_amount size ≡ suc z = unfold pad_amount in ground arith in
    rw amount (ap (λ (xs : Bytes). 0x80 ∷ xs) (take-replicate z 63 (omega arith)))

length-pad_bytes : (len : ℕ) → (len + length (pad_bytes len)) % 64 ≡ 56
unfolding pad_bytes
length-pad_bytes len = omega (arith, length-replicate {A = ℕ} ((119 - len % 64) % 64) 0)

-- The 64 bits of the length.
length_bytes : (len : ℕ) → Bytes
length_bytes len = word_bytes 0 ++ word_bytes (len * 8)

length-length_bytes : (len : ℕ) → length (length_bytes len) ≡ 8
unfolding length_bytes word_bytes
length-length_bytes len = refl

padded_message_eq :
    (msg : Bytes) → padded_message msg ≡ msg ++ pad_bytes (length msg) ++ length_bytes (length msg)
unfolding padded_message length_bytes
padded_message_eq msg =
    append_assoc (msg ++ pad_bytes (length msg)) (word_bytes 0) (word_bytes (length msg * 8))

length-padded_message : (msg : Bytes) → length (padded_message msg) % 64 ≡ 0
length-padded_message msg =
    let n = length msg in
    rw (padded_message_eq msg) (
      omega (
        arith,
        length-append (msg ++ pad_bytes n) (length_bytes n),
        length-append msg (pad_bytes n),
        length-pad_bytes n,
        length-length_bytes n,
      ))

flush_full :
    (ctx : ShaCtx) → length ctx.buffer ≡ 64 → (flush ctx).h ≡ process_block ctx.h ctx.buffer
unfolding flush
flush_full ctx h = ground arith

-- The last eight bytes fill the buffer.
absorb_last :
    (ctx : ShaCtx) (cur : Bytes)
    → length ctx.buffer ≡ 56
    → length cur ≡ 8
    → (absorb_all ctx cur).h ≡ process_block ctx.h (ctx.buffer ++ cur)
absorb_last ctx cur h h' =
    let full : ShaCtx = record {
      h = ctx.h;
      buffer = ctx.buffer ++ cur;
      total = w32 (ctx.total + length cur);
    } in
    ap (λ (c : ShaCtx). c.h) (absorb_all-fill ctx cur (omega arith) (omega arith))
    ∙ flush_full full (omega (arith, length-append ctx.buffer cur))

take-all : (n : ℕ) (xs : Bytes) → length xs ≡ n → take n xs ≡ xs
take-all zero [] h = refl
take-all zero (x ∷ xs) h = absurd (omega arith)
take-all (suc n) [] h = refl
take-all (suc n) (x ∷ xs) h = ap (λ r. x ∷ r) (take-all n xs (omega arith))

block_eq :
    (h : Registers) (buffer : Bytes) (len x y : ℕ)
    → take 56 buffer ≡ buffer
    → x ≡ 0
    → y ≡ len * 8
    → process_block h (take 56 buffer ++ word_bytes x ++ word_bytes y)
      ≡ process_block h (buffer ++ length_bytes len)
unfolding length_bytes
block_eq h buffer len x y e e' e'' =
    rw (e, e', e'', append_assoc buffer (word_bytes 0) (word_bytes (len * 8)))

sha1_final_lem :
    (ctx : ShaCtx) (len : ℕ)
    → length ctx.buffer ≡ len % 64
    → ctx.total ≡ len
    → len < 2 ^ 29
    → sha1_final ctx ≡ digest (absorb_all (absorb_all ctx (pad_bytes len)) (length_bytes len)).h
unfolding sha1_final total_bits w32 length_bytes
sha1_final_lem ctx len sized total small =
    let size_lt : length ctx.buffer < 64 = omega arith in
    let padded = absorb_all ctx (pad_bytes len) in
    let tail : take (pad_amount (length ctx.buffer)) pad ≡ pad_bytes len =
      unfold pad_bytes in rw sized (take-pad (len % 64) (omega arith)) in
    let end : length padded.buffer ≡ 56 =
      omega (arith, absorb_all-length ctx (pad_bytes len) size_lt, length-pad_bytes len) in
    let high : w32 (total_bits ctx / 2 ^ 32) ≡ 0 = omega arith in
    let low : w32 (total_bits ctx) ≡ len * 8 = omega arith in
    let whole = take-all 56 padded.buffer end in
    let close : ShaCtx → Bytes = λ c. digest (
      process_block c.h (
        take 56 c.buffer
        ++ word_bytes (w32 (total_bits ctx / 2 ^ 32))
        ++ word_bytes (w32 (total_bits ctx)))) in
    ap close (ap (sha1_update ctx) tail ∙ sha1_update-absorb_all ctx (pad_bytes len) size_lt)
    ∙ ap digest (
        block_eq padded.h padded.buffer len _ _ whole high low
        ∙ sym (absorb_last padded (length_bytes len) end (length-length_bytes len)))

-- The digest of a message of less than 2 ^ 29 bytes: `SHA1_Init`, `SHA1_Update` and `SHA1_Final`
-- process the blocks of the message padded as the standard has it, the byte 0x80, zeros, and the number
-- of bits in 64 bits, and the padded message consists of full blocks.
pub sha1_final-padded_message :
    (msg : Bytes)
    → length msg < 2 ^ 29
    → (sha1_final (sha1_update sha1_init msg)
        ≡ digest (absorb_all sha1_init (padded_message msg)).h)
      × (length (padded_message msg) % 64 ≡ 0)
sha1_final-padded_message msg small = (
  ap sha1_final (sha1_update-absorb_all sha1_init msg (omega arith))
      ∙ sha1_final_lem ctx len (absorb_all-length sha1_init msg (omega arith) ∙ omega arith)
          (absorb_all-total sha1_init msg (omega arith) ∙ omega arith) small
      ∙ ap (λ (c : ShaCtx). digest c.h)
          (sym (
            ap (absorb_all sha1_init) (padded_message_eq msg)
            ∙ absorb_all-append sha1_init (msg ++ pad_bytes len) (length_bytes len)
            ∙ ap (λ c. absorb_all c (length_bytes len))
                (absorb_all-append sha1_init msg (pad_bytes len)))),
  length-padded_message msg,
)
  where
    ctx : ShaCtx
    ctx = absorb_all sha1_init msg

    len : ℕ
    len = length msg
