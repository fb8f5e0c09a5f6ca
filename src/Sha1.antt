-- ===== src/Sha1.antt =====
-- utils/SHA1.c: the SHA-1 hash. `uint32_t` and `unsigned int` values are numbers below 2 ^ 32.
pub mod Absorb
pub mod Padding
mod Runs
use Prim.Native.Nat.{bit_and, bit_or, bit_xor, min}
use mqtt_client.Prelude.{
  List, [], drop, get_or, if◌then◌else◌, length, ltb, replicate, set, suc, take, zero, ℕ, ◌%◌, ◌*◌,
  ◌++◌, ◌+◌, ◌-◌, ◌/◌, ◌==◌, ◌^◌, ◌∷◌,
}
use mqtt_client.Prelude.Predicates.{Bytes}

unfoldable pub w32 : ℕ → ℕ
w32 n = n % 2 ^ 32

-- The registers `blks`, and the words of `h`.
pub record Registers : Type 0 where
  pub r0 : ℕ
  pub r1 : ℕ
  pub r2 : ℕ
  pub r3 : ℕ
  pub r4 : ℕ

-- `ROTATE_LEFT32`.
rotate_left : (a n : ℕ) → ℕ
rotate_left a n = bit_or (w32 (a * 2 ^ n)) (a / 2 ^ (32 - n))

complement : ℕ → ℕ
complement a = 2 ^ 32 - 1 - a

-- `be32toh` of each word of the buffer.
words_of : Bytes → List ℕ
words_of (a ∷ b ∷ c ∷ d ∷ bs) = (a * 16777216 + b * 65536 + c * 256 + d) ∷ words_of bs
words_of bs = []

word_at : List ℕ → ℕ → ℕ
word_at w i = get_or w (i % 16) 0

-- The words of a round: from round 16 on, one of them is replaced.
schedule : (i : ℕ) → List ℕ → List ℕ
schedule i w =
    if ltb i 16
    then w
    else set w (i % 16) (
        rotate_left
          (bit_xor (bit_xor (bit_xor (word_at w (i + 13)) (word_at w (i + 8))) (word_at w (i + 2)))
            (word_at w i))
          1)

-- The function and the constant of a round.
mix : (i : ℕ) → Registers → ℕ
mix i r =
    if ltb i 20
    then bit_or (bit_and r.r1 r.r2) (bit_and (complement r.r1) r.r3) + 0x5A827999
    else if ltb i 40
    then bit_xor (bit_xor r.r1 r.r2) r.r3 + 0x6ED9EBA1
    else if ltb i 60
    then bit_or (bit_or (bit_and r.r1 r.r2) (bit_and r.r1 r.r3)) (bit_and r.r2 r.r3) + 0x8F1BBCDC
    else bit_xor (bit_xor r.r1 r.r2) r.r3 + 0xCA62C1D6

round : (i word : ℕ) → Registers → Registers
round i word r = record {
  r0 = w32 (rotate_left r.r0 5 + mix i r + r.r4 + word);
  r1 = r.r0;
  r2 = rotate_left r.r1 30;
  r3 = r.r2;
  r4 = r.r3;
}

-- The loop, with the number of rounds that are left.
rounds : (left i : ℕ) → List ℕ → Registers → Registers
rounds zero i w r = r
rounds (suc left) i w r = let w' = schedule i w in rounds left (i + 1) w' (round i (word_at w' i) r)

-- `SHA1_ProcessBlock` on a full buffer.
pub process_block : Registers → Bytes → Registers
unfolding rounds round mix schedule word_at words_of rotate_left complement
process_block h block =
    let r = rounds 80 0 (words_of block) h in
    record {
      r0 = w32 (h.r0 + r.r0);
      r1 = w32 (h.r1 + r.r1);
      r2 = w32 (h.r2 + r.r2);
      r3 = w32 (h.r3 + r.r3);
      r4 = w32 (h.r4 + r.r4);
    }

-- `SHA_CTX`. `buffer` is its first `size` bytes: what lies behind them is not read, and what
-- `SHA1_ProcessBlock` leaves in the buffer neither.
pub record ShaCtx : Type 0 where
  pub h : Registers
  pub buffer : Bytes
  pub total : ℕ

-- `SHA1_Init`.
abbrev pub sha1_init : ShaCtx
sha1_init = record {
  h = record {
    r0 = 0x67452301;
    r1 = 0xEFCDAB89;
    r2 = 0x98BADCFE;
    r3 = 0x10325476;
    r4 = 0xC3D2E1F0;
  };
  buffer = [];
  total = 0;
}

-- A full buffer is processed.
unfoldable pub flush : ShaCtx → ShaCtx
flush ctx =
    if length ctx.buffer == 64
    then record { h = process_block ctx.h ctx.buffer; buffer = []; total = ctx.total }
    else ctx

-- The body of the loop of `SHA1_Update`, with `n` bytes copied.
unfoldable pub fill : (n : ℕ) → Bytes → ShaCtx → ShaCtx
fill n cur ctx =
    flush (record { h = ctx.h; buffer = ctx.buffer ++ take n cur; total = w32 (ctx.total + n) })

-- The loop, with fuel.
sha1_update_loop : (fuel : ℕ) → ShaCtx → Bytes → ShaCtx
sha1_update_loop fuel ctx [] = ctx
sha1_update_loop zero ctx (b ∷ cur) = ctx
sha1_update_loop (suc fuel) ctx (b ∷ cur) =
    let n = min (64 - length ctx.buffer) (length (b ∷ cur)) in
    sha1_update_loop fuel (fill n (b ∷ cur) ctx) (drop n (b ∷ cur))

-- `SHA1_Update`. Each round takes a byte at least.
pub sha1_update : ShaCtx → Bytes → ShaCtx
unfolding sha1_update_loop
sha1_update ctx cur = sha1_update_loop (length cur) ctx cur

-- `pad`.
abbrev pub pad : Bytes
pad = 0x80 ∷ replicate 63 0

-- `htobe32` of a word, as bytes.
unfoldable pub word_bytes : ℕ → Bytes
word_bytes n = n / 16777216 % 256 ∷ n / 65536 % 256 ∷ n / 256 % 256 ∷ n % 256 ∷ []

unfoldable pub pad_amount : (size : ℕ) → ℕ
pad_amount size = if ltb size 56 then 56 - size else 64 + 56 - size

-- The product of `unsigned int` values: 32 bits, whose upper half as a `uint64_t` is zero.
unfoldable pub total_bits : ShaCtx → ℕ
total_bits ctx = w32 (ctx.total * 8)

unfoldable pub digest : Registers → Bytes
digest h =
    word_bytes h.r0 ++ word_bytes h.r1 ++ word_bytes h.r2 ++ word_bytes h.r3 ++ word_bytes h.r4

-- `SHA1_Final`: the bytes written to `md`. The two words of the length are stored at 56 and 60.
pub sha1_final : ShaCtx → Bytes
sha1_final ctx =
    let total = total_bits ctx in
    let padded = sha1_update ctx (take (pad_amount (length ctx.buffer)) pad) in
    digest (
      process_block padded.h
        (take 56 padded.buffer ++ word_bytes (w32 (total / 2 ^ 32)) ++ word_bytes (w32 total)))
