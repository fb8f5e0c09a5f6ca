-- ===== src/Base64/RoundTrip.antt =====
-- What `Base64_encode` writes, `Base64_decode` reads back.
use mqtt_client.Base64.{
  base64_decode, base64_decode_loop, base64_encode, base64_encode_length, base64_encode_loop,
  decode_char, encode_char, encode_group, indices_one, indices_three, indices_two, terminated,
}
use mqtt_client.Base64.Groups.{decode_one, decode_three, decode_two}
use mqtt_client.Prelude.{
  Bool, [], ap, arith, false, leb, length, ltb, map, refl, true, ℕ, ◌*◌, ◌++◌, ◌+◌, ◌-◌, ◌/◌, ◌<◌,
  ◌==◌, ◌^◌, ◌∙◌, ◌∷◌, ◌≡◌, ◌≤◌,
}
use mqtt_client.Prelude.Predicates.{AllBytes, Bytes}
use mqtt_client.Prelude.Run.{done, fault}

-- The characters of a sequence of bytes.
unfoldable pub base64_text : Bytes → Bytes
base64_text [] = []
base64_text (a ∷ []) = map encode_char (indices_one a) ++ []
base64_text (a ∷ b ∷ []) = map encode_char (indices_two a b) ++ []
base64_text (a ∷ b ∷ c ∷ bs) = map encode_char (indices_three a b c) ++ base64_text bs

pub length-base64_text : (bs : Bytes) → length (base64_text bs) ≡ (length bs + 2) / 3 * 4
unfolding base64_text indices_one indices_two indices_three
length-base64_text [] = refl
length-base64_text (a ∷ []) = refl
length-base64_text (a ∷ b ∷ []) = refl
length-base64_text (a ∷ b ∷ c ∷ bs) = omega (arith, length-base64_text bs)

-- With room for all the characters, the loop stores them all.
encode_loop_lem :
    (out_len out_count : ℕ) (bs : Bytes)
    → out_count + length (base64_text bs) ≤ out_len
    → base64_encode_loop out_len out_count bs
      ≡ (base64_text bs, out_count + length (base64_text bs))
unfolding base64_encode_loop encode_group base64_text indices_one indices_two indices_three
encode_loop_lem out_len out_count [] h = ap (λ n. ([], n)) (omega arith)
encode_loop_lem out_len out_count (a ∷ []) h = ground arith
encode_loop_lem out_len out_count (a ∷ b ∷ []) h = ground arith
encode_loop_lem out_len out_count (a ∷ b ∷ c ∷ bs) h =
    let more = encode_loop_lem out_len (out_count + 4) bs (omega arith) in
    let test₁ : leb out_len out_count ≡ false = ground arith in
    let test₂ : leb (out_count + 4) out_len ≡ true = ground arith in
    rw (more, test₁, test₂)
      (ap (λ n. (map encode_char (indices_three a b c) ++ base64_text bs, n)) (omega arith))

decode_loop-base64_text :
    (signed : Bool) (room : ℕ) (bs : Bytes)
    → AllBytes bs
    → length bs ≤ room
    → base64_decode_loop signed room (base64_text bs) ≡ done bs
unfolding base64_text
decode_loop-base64_text signed room [] h fits = unfold base64_decode_loop in refl
decode_loop-base64_text signed room (a ∷ []) h fits = decode_one signed room a h.0 fits
decode_loop-base64_text signed room (a ∷ b ∷ []) (ha, (hb, h)) fits =
    decode_two signed room a b ha hb fits
decode_loop-base64_text signed room (a ∷ b ∷ c ∷ bs) (ha, (hb, (hc, h))) fits =
    decode_three signed room a b c (base64_text bs) ha hb hc (omega arith)
    ∙ rw (decode_loop-base64_text signed (room - 3) bs h (omega arith)) refl

-- `Base64_encode` into a buffer with room for 4 characters for every 3 bytes or part of them yields
-- that many characters, with a terminating zero where it fits, and `Base64_decode` takes the bytes
-- back from them into a buffer that is large enough, whether `char` is signed or not.
pub base64_decode-encode :
    (signed : Bool) (out_len out_len' : ℕ) (bs : Bytes)
    → AllBytes bs
    → (length bs + 2) / 3 * 4 ≤ out_len
    → length bs ≤ out_len'
    → (text : Bytes) × (base64_encode out_len bs ≡ (terminated out_len text, length text))
      × (length text ≡ (length bs + 2) / 3 * 4)
      × (base64_decode signed out_len' text ≡ done (terminated out_len' bs, length bs))
unfolding base64_encode base64_decode
base64_decode-encode signed out_len out_len' bs h fits fits' =
    let text = base64_text bs in
    let sized = length-base64_text bs in
    let stored = encode_loop_lem out_len 0 bs (omega arith) in
    let test : leb (0 + length text) out_len ≡ true = ground arith in
    (
      text,
      rw (stored, test) (ap (λ n. (terminated out_len text, n)) (omega arith)),
      sized,
      rw (decode_loop-base64_text signed out_len' bs h fits'),
    )

-- With fewer than 2 ^ 30 bytes, `Base64_encodeLength` is the number of characters that `Base64_encode`
-- stores in a buffer of this length and returns.
pub base64_encode_length-encode :
    (bs : Bytes)
    → length bs < 2 ^ 30
    → let n = base64_encode_length (length bs) in
      (base64_encode n bs ≡ (base64_text bs, n)) × (length (base64_text bs) ≡ n)
unfolding base64_encode base64_encode_length terminated
base64_encode_length-encode bs small =
    let n = base64_encode_length (length bs) in
    let sized : length (base64_text bs) ≡ n = omega (arith, length-base64_text bs) in
    let stored = encode_loop_lem n 0 bs (omega arith) in
    let count : 0 + length (base64_text bs) ≡ n = omega arith in
    let test : leb n n ≡ true = ground arith in
    let full : ltb n n ≡ false = ground arith in (rw (stored, count, test, sized, full), sized)

-- Where `char` is signed, `Base64_decode` into a buffer that is not empty leaves its defined behaviour
-- on a group of four characters whose first one is a byte from 128 on.
pub base64_decode-fault :
    (out_len w x y z : ℕ) (cur : Bytes)
    → 0 < out_len
    → 128 ≤ w
    → base64_decode true out_len (w ∷ x ∷ y ∷ z ∷ cur) ≡ fault
unfolding base64_decode base64_decode_loop decode_char
base64_decode-fault out_len w x y z cur h high =
    let test : (out_len == 0) ≡ false = ground arith in
    let behind : leb 128 w ≡ true = ground arith in rw (test, behind)
