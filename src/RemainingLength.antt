-- ===== src/RemainingLength.antt =====
-- The variable byte integers of MQTTPacket.c: `MQTTPacket_encode`, `MQTTPacket_decode` and
-- `MQTTPacket_VBIlen`.
pub mod Encode
pub mod RoundTrip
pub mod Reading
pub mod Rewinding
mod Runs
use Prim.Native.Nat.{bit_and, bit_or}
use mathlib.Core.Logic.{dite}
use mathlib.Core.WellFounded.{Acc}
use mqtt_client.Prelude.{
  [], arith, if◌then◌else◌, length, suc, zero, ℕ, ◌%◌, ◌*◌, ◌++◌, ◌+◌, ◌/◌, ◌<◌, ◌==◌, ◌∷◌,
}
use mqtt_client.Prelude.Int.{ltb_ℤ, pos, ℤ, ◌==ℤ◌}
use mqtt_client.Prelude.Order.{lt_wf}
use mqtt_client.Prelude.Predicates.{Bytes}
use mqtt_client.Transport.{Transport, socket_error, tcpsocket_complete}
use native.Mathlib.Decide.{dec_lt}

quotient_shrinks : (n : ℕ) → 0 < n / 128 → n / 128 < n
quotient_shrinks n h = omega arith

-- The loop of `MQTTPacket_encode` with the digits that it has stored in `buf`.
encode_loop : (n : ℕ) → Acc ◌<◌ n → Bytes → Bytes
encode_loop n (Acc.intro _ smaller) buf =
    dite (dec_lt 0 (n / 128))
      (λ more.
        encode_loop (n / 128) (smaller _ (quotient_shrinks n more))
          (buf ++ bit_or (n % 128) 0x80 ∷ []))
      (λ _. buf ++ n % 128 ∷ [])

-- The bytes that `MQTTPacket_encode` writes at `buf`. Its result is their number, also where `buf`
-- is `NULL` and it writes nothing.
pub encode : ℕ → Bytes
encode n = encode_loop n (lt_wf.apply n) []

unfoldable pub encode_count : ℕ → ℕ
encode_count n = length (encode n)

-- The number of bytes that the encoding of `rem_len`, an `int`, is taken to have.
pub vbi_len : ℤ → ℕ
vbi_len rem_len =
    if ltb_ℤ rem_len (pos 128)
    then 1
    else if ltb_ℤ rem_len (pos 16384)
    then 2
    else if ltb_ℤ rem_len (pos 2097152)
    then 3
    else 4

abbrev pub max_no_of_remaining_length_bytes : ℕ
max_no_of_remaining_length_bytes = 4

module _ {S : Type 0} (t : Transport S) where
  -- `left` is `MAX_NO_OF_REMAINING_LENGTH_BYTES - len`. The result is `rc`, `*value` and the state.
  pub decode_loop : (left multiplier value : ℕ) → S → ℤ × ℕ × S
  decode_loop zero multiplier value s = (socket_error, value, s)
  decode_loop (suc left) multiplier value s =
      let (rc, c, s') = t.getch s in
      let value' = value + bit_and c 127 * multiplier in
      let rest = decode_loop left (multiplier * 128) value' s' in
      if rc ==ℤ tcpsocket_complete
      then (if bit_and c 128 == 0 then (rc, value', s') else rest)
      else (rc, value, s')

  pub decode : S → ℤ × ℕ × S
  unfolding decode_loop
  decode s = decode_loop max_no_of_remaining_length_bytes 1 0 s
