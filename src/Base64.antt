-- ===== src/Base64.antt =====
-- utils/Base64.c: the encoding of bytes in 64 characters.
pub mod Groups
pub mod RoundTrip
mod Runs
use Prim.Native.Nat.{bit_and, bit_or}
use mqtt_client.Prelude.{
  Bool, List, [], get_or, if◌then◌else◌, leb, length, ltb, map, replicate, ℕ, ◌%◌, ◌&&◌, ◌*◌, ◌++◌,
  ◌+◌, ◌-◌, ◌/◌, ◌==◌, ◌^◌, ◌∷◌,
}
use mqtt_client.Prelude.Predicates.{Bytes}
use mqtt_client.Prelude.Run.{Run, done, fault, ◌>>=◌}

-- `NV`.
abbrev pub nv : ℕ
nv = 64

-- `BASE64_DECODE_TABLE`, whose second half is `NV` throughout.
abbrev pub base64_decode_table : List ℕ
base64_decode_table =
    64
    ∷ 64
    ∷ 64
    ∷ 64
    ∷ 64
    ∷ 64
    ∷ 64
    ∷ 64
    ∷ 64
    ∷ 64
    ∷ 64
    ∷ 64
    ∷ 64
    ∷ 64
    ∷ 64
    ∷ 64
    ∷ 64
    ∷ 64
    ∷ 64
    ∷ 64
    ∷ 64
    ∷ 64
    ∷ 64
    ∷ 64
    ∷ 64
    ∷ 64
    ∷ 64
    ∷ 64
    ∷ 64
    ∷ 64
    ∷ 64
    ∷ 64
    ∷ 64
    ∷ 64
    ∷ 64
    ∷ 64
    ∷ 64
    ∷ 64
    ∷ 64
    ∷ 64
    ∷ 64
    ∷ 64
    ∷ 64
    ∷ 62
    ∷ 64
    ∷ 64
    ∷ 64
    ∷ 63
    ∷ 52
    ∷ 53
    ∷ 54
    ∷ 55
    ∷ 56
    ∷ 57
    ∷ 58
    ∷ 59
    ∷ 60
    ∷ 61
    ∷ 64
    ∷ 64
    ∷ 64
    ∷ 64
    ∷ 64
    ∷ 64
    ∷ 64
    ∷ 0
    ∷ 1
    ∷ 2
    ∷ 3
    ∷ 4
    ∷ 5
    ∷ 6
    ∷ 7
    ∷ 8
    ∷ 9
    ∷ 10
    ∷ 11
    ∷ 12
    ∷ 13
    ∷ 14
    ∷ 15
    ∷ 16
    ∷ 17
    ∷ 18
    ∷ 19
    ∷ 20
    ∷ 21
    ∷ 22
    ∷ 23
    ∷ 24
    ∷ 25
    ∷ 64
    ∷ 64
    ∷ 64
    ∷ 64
    ∷ 64
    ∷ 64
    ∷ 26
    ∷ 27
    ∷ 28
    ∷ 29
    ∷ 30
    ∷ 31
    ∷ 32
    ∷ 33
    ∷ 34
    ∷ 35
    ∷ 36
    ∷ 37
    ∷ 38
    ∷ 39
    ∷ 40
    ∷ 41
    ∷ 42
    ∷ 43
    ∷ 44
    ∷ 45
    ∷ 46
    ∷ 47
    ∷ 48
    ∷ 49
    ∷ 50
    ∷ 51
    ∷ 64
    ∷ 64
    ∷ 64
    ∷ 64
    ∷ 64
    ∷ (replicate 128 nv)

-- `BASE64_ENCODE_TABLE` without its terminating zero.
abbrev pub base64_encode_table : List ℕ
base64_encode_table =
    65 ∷ 66 ∷ 67 ∷ 68 ∷ 69 ∷ 70 ∷ 71 ∷ 72 ∷ 73 ∷ 74 ∷ 75 ∷ 76 ∷ 77 ∷ 78 ∷ 79 ∷ 80 ∷ 81 ∷ 82 ∷ 83
    ∷ 84 ∷ 85 ∷ 86 ∷ 87 ∷ 88 ∷ 89 ∷ 90 ∷ 97 ∷ 98 ∷ 99 ∷ 100 ∷ 101 ∷ 102 ∷ 103 ∷ 104 ∷ 105 ∷ 106
    ∷ 107 ∷ 108 ∷ 109 ∷ 110 ∷ 111 ∷ 112 ∷ 113 ∷ 114 ∷ 115 ∷ 116 ∷ 117 ∷ 118 ∷ 119 ∷ 120 ∷ 121 ∷ 122
    ∷ 48 ∷ 49 ∷ 50 ∷ 51 ∷ 52 ∷ 53 ∷ 54 ∷ 55 ∷ 56 ∷ 57 ∷ 43 ∷ 47 ∷ 61 ∷ []

-- `BASE64_DECODE_TABLE[(int)(*in)]`. Where `char` is signed, a character from 128 on is a negative
-- index.
unfoldable pub decode_char : (signed : Bool) → ℕ → Run ℕ
decode_char signed c = if signed && leb 128 c then fault else done (get_or base64_decode_table c nv)

-- The three bytes of four table entries, as the code puts them together.
unfoldable pub first_byte : (c₀ c₁ : ℕ) → ℕ
first_byte c₀ c₁ = bit_or (c₀ * 4 % 256) (bit_and c₁ 0xF0 / 16)

unfoldable pub second_byte : (c₁ c₂ : ℕ) → ℕ
second_byte c₁ c₂ = bit_or (bit_and c₁ 0x0F * 16) (bit_and c₂ 0xFC / 4)

unfoldable pub third_byte : (c₂ c₃ : ℕ) → ℕ
third_byte c₂ c₃ = bit_or (bit_and c₂ 0x03 * 64) c₃

-- The body of the loop behind the table, with `room` for `out_len - out_count` and `rest` for the
-- rounds that follow.
decode_group : (room : ℕ) → (c₀ c₁ c₂ c₃ : ℕ) → (rest : Run Bytes) → Run Bytes
decode_group room c₀ c₁ c₂ c₃ rest =
    if room == 1
    then done (first_byte c₀ c₁ ∷ [])
    else if leb nv c₂
    then done (first_byte c₀ c₁ ∷ [])
    else if room == 2
    then done (first_byte c₀ c₁ ∷ second_byte c₁ c₂ ∷ [])
    else if leb nv c₃
    then done (first_byte c₀ c₁ ∷ second_byte c₁ c₂ ∷ [])
    else rest >>= λ bs. done (first_byte c₀ c₁ ∷ second_byte c₁ c₂ ∷ third_byte c₂ c₃ ∷ bs)

-- The loop of `Base64_decode`: the bytes that it counts in `out_count`. What it stores behind them is
-- overwritten by the terminating zero.
pub base64_decode_loop : (signed : Bool) → (room : ℕ) → Bytes → Run Bytes
unfolding decode_group
base64_decode_loop signed room (w ∷ x ∷ y ∷ z ∷ cur) =
    let rest = base64_decode_loop signed (room - 3) cur in
    let round = (do
      c₀ ← decode_char signed w
      c₁ ← decode_char signed x
      c₂ ← decode_char signed y
      c₃ ← decode_char signed z
      decode_group room c₀ c₁ c₂ c₃ rest) in
    if room == 0 then done [] else round
base64_decode_loop signed room cur = done []

-- The bytes with a zero behind them where `out_len` leaves room for it.
unfoldable pub terminated : (out_len : ℕ) → Bytes → Bytes
terminated out_len bs = if ltb (length bs) out_len then bs ++ 0 ∷ [] else bs

-- `Base64_decode`: what is written to `out`, and the result.
pub base64_decode : (signed : Bool) → (out_len : ℕ) → Bytes → Run (Bytes × ℕ)
base64_decode signed out_len cur = do
  bs ← base64_decode_loop signed out_len cur
  done (terminated out_len bs, length bs)

-- The array `c` for three bytes, two bytes and one byte.
unfoldable pub indices_three : (a b c : ℕ) → List ℕ
indices_three a b c =
    bit_and a 0xFC / 4
    ∷ bit_or (bit_and a 0x03 * 16) (bit_and b 0xF0 / 16)
    ∷ bit_or (bit_and b 0x0F * 4) (bit_and c 0xC0 / 64)
    ∷ bit_and c 0x3F
    ∷ []

unfoldable pub indices_two : (a b : ℕ) → List ℕ
indices_two a b =
    bit_and a 0xFC / 4
    ∷ bit_or (bit_and a 0x03 * 16) (bit_and b 0xF0 / 16)
    ∷ bit_and b 0x0F * 4
    ∷ 64
    ∷ []

unfoldable pub indices_one : (a : ℕ) → List ℕ
indices_one a = bit_and a 0xFC / 4 ∷ bit_and a 0x03 * 16 ∷ 64 ∷ 64 ∷ []

unfoldable pub encode_char : ℕ → ℕ
encode_char i = get_or base64_encode_table i 0

-- A round of the loop, for buffers below 2 ^ 32 - 4: the characters are stored only where all of them fit, and `out_count` grows in
-- any case. `rest` is the rounds that follow.
encode_group : (out_len out_count : ℕ) → (indices : List ℕ) → (rest : Bytes × ℕ) → Bytes × ℕ
encode_group out_len out_count indices (text, count) =
    if leb out_len out_count
    then ([], out_count)
    else if leb (out_count + 4) out_len
    then (map encode_char indices ++ text, count)
    else ([], out_count + 4)

-- The loop of `Base64_encode`: the characters stored, and `out_count`.
pub base64_encode_loop : (out_len out_count : ℕ) → Bytes → Bytes × ℕ
unfolding encode_group
base64_encode_loop out_len out_count [] = ([], out_count)
base64_encode_loop out_len out_count (a ∷ []) =
    encode_group out_len out_count (indices_one a) ([], out_count + 4)
base64_encode_loop out_len out_count (a ∷ b ∷ []) =
    encode_group out_len out_count (indices_two a b) ([], out_count + 4)
base64_encode_loop out_len out_count (a ∷ b ∷ c ∷ cur) =
    encode_group out_len out_count (indices_three a b c)
      (base64_encode_loop out_len (out_count + 4) cur)

-- `Base64_encode`: what is written to `out`, and the result.
pub base64_encode : (out_len : ℕ) → Bytes → Bytes × ℕ
base64_encode out_len cur =
    let (text, count) = base64_encode_loop out_len 0 cur in
    if leb count out_len then (terminated out_len text, count) else (text, 0)

-- `Base64_encodeLength` with its 32-bit arithmetic.
pub base64_encode_length : ℕ → ℕ
base64_encode_length in_len = (4 * in_len % 2 ^ 32 / 3 + 3) % 2 ^ 32 / 4 * 4
