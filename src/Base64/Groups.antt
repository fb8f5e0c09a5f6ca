-- ===== src/Base64/Groups.antt =====
-- One round of each loop of Base64.c: the characters of up to three bytes give these bytes back.
use Prim.Native.Nat.{bit_or}
use mqtt_client.Base64.{
  base64_decode_loop, base64_decode_table, decode_char, decode_group, encode_char, first_byte,
  indices_one, indices_three, indices_two, nv, second_byte, third_byte,
}
use mqtt_client.Prelude.{
  Bool, [], arith, false, get_or, leb, map, refl, ℕ, ◌%◌, ◌*◌, ◌++◌, ◌+◌, ◌-◌, ◌/◌, ◌<◌, ◌==◌, ◌∙◌,
  ◌∷◌, ◌≡◌, ◌≤◌,
}
use mqtt_client.Prelude.Bits.{
  agree_below, agree_below→eq, bit_and_0x03, bit_and_0x0f, bit_and_0x3f, bit_and_0xc0, bit_and_0xf0,
  bit_and_0xfc, bit_or_at_16, bit_or_at_4, bit_or_at_64,
}
use mqtt_client.Prelude.Predicates.{Bytes}
use mqtt_client.Prelude.Run.{done, ◌>>=◌}

-- The bit operations on fields that do not overlap are additions.
or_at_4 : (x y : ℕ) → x < 64 → y < 4 → bit_or (x * 4) y ≡ x * 4 + y
or_at_4 x y hx hy =
    let high : (x * 4 + y) / 4 * 4 ≡ x * 4 = omega arith in
    let low : (x * 4 + y) % 4 ≡ y = omega arith in
    rw (high, low) at (bit_or_at_4 (x * 4 + y) (omega arith))

or_at_16 : (x y : ℕ) → x < 16 → y < 16 → bit_or (x * 16) y ≡ x * 16 + y
or_at_16 x y hx hy =
    let high : (x * 16 + y) / 16 * 16 ≡ x * 16 = omega arith in
    let low : (x * 16 + y) % 16 ≡ y = omega arith in
    rw (high, low) at (bit_or_at_16 (x * 16 + y) (omega arith))

or_at_64 : (x y : ℕ) → x < 4 → y < 64 → bit_or (x * 64) y ≡ x * 64 + y
or_at_64 x y hx hy =
    let high : (x * 64 + y) / 64 * 64 ≡ x * 64 = omega arith in
    let low : (x * 64 + y) % 64 ≡ y = omega arith in
    rw (high, low) at (bit_or_at_64 (x * 64 + y) (omega arith))

-- Each character of the table is decoded to its index, the padding to `NV`.
table_inverse : (i : ℕ) → i < 65 → get_or base64_decode_table (encode_char i) nv ≡ i
unfolding encode_char agree_below
table_inverse = agree_below→eq (λ i. get_or base64_decode_table (encode_char i) nv) (λ i. i) 65 refl

below_128 : (i : ℕ) → i < 65 → encode_char i / 128 ≡ 0
unfolding encode_char agree_below
below_128 = agree_below→eq (λ i. encode_char i / 128) (λ i. 0) 65 refl

decode_char-encode_char :
    (signed : Bool) (i : ℕ) → i < 65 → decode_char signed (encode_char i) ≡ done i
unfolding decode_char
decode_char-encode_char signed i h =
    let small = below_128 i h in
    let test : leb 128 (encode_char i) ≡ false = ground arith in
    rw (test, table_inverse i h) (ground arith)

-- The indices of three bytes as numbers.
indices_three_eq :
    (a b c : ℕ)
    → a < 256
    → b < 256
    → c < 256
    → indices_three a b c ≡ a / 4 ∷ (a % 4 * 16 + b / 16) ∷ (b % 16 * 4 + c / 64) ∷ c % 64 ∷ []
unfolding indices_three
indices_three_eq a b c ha hb hc =
    let q : b / 16 * 16 / 16 ≡ b / 16 = omega arith in
    let r : c / 64 * 64 / 64 ≡ c / 64 = omega arith in
    let p : a / 4 * 4 / 4 ≡ a / 4 = omega arith in
    rw
      (
        bit_and_0xfc a ha,
        bit_and_0x03 a ha,
        bit_and_0xf0 b hb,
        bit_and_0x0f b hb,
        bit_and_0xc0 c hc,
        bit_and_0x3f c hc,
        p,
        q,
        r,
        or_at_16 (a % 4) (b / 16) (omega arith) (omega arith),
        or_at_4 (b % 16) (c / 64) (omega arith) (omega arith),
      )
      refl

first_byte_lem : (a i₁ : ℕ) → a < 256 → i₁ < 64 → i₁ / 16 ≡ a % 4 → first_byte (a / 4) i₁ ≡ a
unfolding first_byte
first_byte_lem a i₁ ha h e =
    let p : i₁ / 16 * 16 / 16 ≡ a % 4 = omega arith in
    let q : a / 4 * 4 % 256 ≡ a / 4 * 4 = omega arith in
    rw (bit_and_0xf0 i₁ (omega arith), p, q, or_at_4 (a / 4) (a % 4) (omega arith) (omega arith))
      (omega arith)

second_byte_lem :
    (b i₁ i₂ : ℕ)
    → b < 256
    → i₁ < 64
    → i₂ < 64
    → i₁ % 16 ≡ b / 16
    → i₂ / 4 ≡ b % 16
    → second_byte i₁ i₂ ≡ b
unfolding second_byte
second_byte_lem b i₁ i₂ hb h h' e e' =
    let q : i₂ / 4 * 4 / 4 ≡ b % 16 = omega arith in
    rw
      (
        bit_and_0x0f i₁ (omega arith),
        bit_and_0xfc i₂ (omega arith),
        e,
        q,
        or_at_16 (b / 16) (b % 16) (omega arith) (omega arith),
      )
      (omega arith)

third_byte_lem : (c i₂ : ℕ) → c < 256 → i₂ < 64 → i₂ % 4 ≡ c / 64 → third_byte i₂ (c % 64) ≡ c
unfolding third_byte
third_byte_lem c i₂ hc h e =
    rw (bit_and_0x03 i₂ (omega arith), e, or_at_64 (c / 64) (c % 64) (omega arith) (omega arith))
      (omega arith)

-- One round of the decoder on the characters of four indices.
round_eq :
    (signed : Bool) (room i₀ i₁ i₂ i₃ : ℕ) (text : Bytes)
    → i₀ < 65
    → i₁ < 65
    → i₂ < 65
    → i₃ < 65
    → 0 < room
    → base64_decode_loop signed room (map encode_char (i₀ ∷ i₁ ∷ i₂ ∷ i₃ ∷ []) ++ text)
      ≡ decode_group room i₀ i₁ i₂ i₃ (base64_decode_loop signed (room - 3) text)
unfolding base64_decode_loop
round_eq signed room i₀ i₁ i₂ i₃ text h₀ h₁ h₂ h₃ some_room =
    let test : (room == 0) ≡ false = ground arith in
    rw
      (
        test,
        decode_char-encode_char signed i₀ h₀,
        decode_char-encode_char signed i₁ h₁,
        decode_char-encode_char signed i₂ h₂,
        decode_char-encode_char signed i₃ h₃,
      )
      refl

pub decode_three :
    (signed : Bool) (room a b c : ℕ) (text : Bytes)
    → a < 256
    → b < 256
    → c < 256
    → 3 ≤ room
    → base64_decode_loop signed room (map encode_char (indices_three a b c) ++ text)
      ≡ (base64_decode_loop signed (room - 3) text >>= λ bs. done (a ∷ b ∷ c ∷ bs))
unfolding decode_group
decode_three signed room a b c text ha hb hc h =
    let i₁ = a % 4 * 16 + b / 16 in
    let i₂ = b % 16 * 4 + c / 64 in
    let test₁ : (room == 1) ≡ false = ground arith in
    let test₂ : (room == 2) ≡ false = ground arith in
    let test₃ : leb nv i₂ ≡ false = ground arith in
    let test₄ : leb nv (c % 64) ≡ false = ground arith in
    rw (indices_three_eq a b c ha hb hc) (
      round_eq signed room (a / 4) i₁ i₂ (c % 64) text (omega arith) (omega arith) (omega arith)
        (omega arith) (omega arith)
      ∙ rw
          (
            test₁,
            test₂,
            test₃,
            test₄,
            first_byte_lem a i₁ ha (omega arith) (omega arith),
            second_byte_lem b i₁ i₂ hb (omega arith) (omega arith) (omega arith) (omega arith),
            third_byte_lem c i₂ hc (omega arith) (omega arith),
          )
          refl)

pub decode_two :
    (signed : Bool) (room a b : ℕ)
    → a < 256
    → b < 256
    → 2 ≤ room
    → base64_decode_loop signed room (map encode_char (indices_two a b) ++ []) ≡ done (a ∷ b ∷ [])
unfolding decode_group indices_two
decode_two signed room a b ha hb h =
    let i₁ = a % 4 * 16 + b / 16 in
    let i₂ = b % 16 * 4 in
    let p : a / 4 * 4 / 4 ≡ a / 4 = omega arith in
    let q : b / 16 * 16 / 16 ≡ b / 16 = omega arith in
    let test₁ : (room == 1) ≡ false = ground arith in
    let test₂ : leb nv i₂ ≡ false = ground arith in
    rw
      (
        bit_and_0xfc a ha,
        bit_and_0x03 a ha,
        bit_and_0xf0 b hb,
        bit_and_0x0f b hb,
        p,
        q,
        or_at_16 (a % 4) (b / 16) (omega arith) (omega arith),
      )
      (round_eq signed room (a / 4) i₁ i₂ 64 [] (omega arith) (omega arith) (omega arith)
          (omega arith) (omega arith)
        ∙ rw
            (
              test₁,
              test₂,
              first_byte_lem a i₁ ha (omega arith) (omega arith),
              second_byte_lem b i₁ i₂ hb (omega arith) (omega arith) (omega arith) (omega arith),
            )
            (ground arith))

pub decode_one :
    (signed : Bool) (room a : ℕ)
    → a < 256
    → 1 ≤ room
    → base64_decode_loop signed room (map encode_char (indices_one a) ++ []) ≡ done (a ∷ [])
unfolding decode_group indices_one
decode_one signed room a ha h =
    let i₁ = a % 4 * 16 in
    let p : a / 4 * 4 / 4 ≡ a / 4 = omega arith in
    rw (bit_and_0xfc a ha, bit_and_0x03 a ha, p)
      (round_eq signed room (a / 4) i₁ 64 64 [] (omega arith) (omega arith) (omega arith)
          (omega arith) (omega arith)
        ∙ rw (first_byte_lem a i₁ ha (omega arith) (omega arith)) (ground arith))
