-- ===== src/RemainingLength/RoundTrip.antt =====
-- `MQTTPacket_decode` against `MQTTPacket_encode`, and on arbitrary input.
use Prim.Native.Nat.{bit_and}
use mqtt_client.Prelude.{
  [], ap, arith, false, if◌then◌else◌, ltb, lt→ltb, suc, zero, ℕ, ◌%◌, ◌*◌, ◌+◌, ◌/◌, ◌<◌, ◌==◌,
  ◌^◌, ◌∙◌, ◌∷◌, ◌≡◌,
}
use mqtt_client.Prelude.Bits.{bit_and_0x7f, bit_and_0x80}
use mqtt_client.RemainingLength.{decode, decode_loop, encode}
use mqtt_client.RemainingLength.Encode.{encode-groups, groups, groups_inner, groups_last}
use mqtt_client.Transport.{Transport, tcpsocket_complete}
use mqtt_client.Transport.Delivery.{Delivers}
use native.Mathlib.Decide.{dec_lt}
use native.Mathlib.Nat.{div-add-mod}

-- The test of the top bit, which says that more bytes follow.
top_bit_test : (b : ℕ) → b < 256 → (bit_and b 128 == 0) ≡ ltb b 128
top_bit_test b h = rw (bit_and_0x80 b h) (ground arith)

module _ {S : Type 0} (t : Transport S) where
  -- One round of the loop on a complete read.
  pub decode_step :
      (left multiplier value b : ℕ) (s s' : S)
      → t.getch s ≡ (tcpsocket_complete, b, s')
      → b < 256
      → decode_loop t (suc left) multiplier value s ≡ (
          if ltb b 128
          then (tcpsocket_complete, value + b % 128 * multiplier, s')
          else decode_loop t left (multiplier * 128) (value + b % 128 * multiplier) s')
  unfolding decode_loop
  decode_step left multiplier value b s s' e h = rw (e, bit_and_0x7f b h, top_bit_test b h)

  decode_last :
      (left multiplier value b : ℕ) (s s' : S)
      → b < 128
      → Delivers t s (b ∷ []) s'
      → decode_loop t (suc left) multiplier value s
        ≡ (tcpsocket_complete, value + b * multiplier, s')
  decode_last left multiplier value b s s' h (s₁, e, end) =
      rw (decode_step left multiplier value b s s₁ e (omega arith), lt→ltb b 128 h, end)
        (ap (λ k. (tcpsocket_complete, value + k * multiplier, s')) (omega arith))

  decode_inner :
      (left multiplier value g : ℕ) (s s' : S)
      → g < 128
      → t.getch s ≡ (tcpsocket_complete, g + 128, s')
      → decode_loop t (suc left) multiplier value s
        ≡ decode_loop t left (multiplier * 128) (value + g * multiplier) s'
  decode_inner left multiplier value g s s' h e =
      rw (decode_step left multiplier value (g + 128) s s' e (omega arith), test, group)
    where
      test : ltb (g + 128) 128 ≡ false
      test = ground arith

      group : (g + 128) % 128 ≡ g
      group = omega arith

  -- The groups of `n` that come after `j` others count from 128 ^ j on.
  decode_loop-groups :
      (k left multiplier value n : ℕ) (s s' : S)
      → n < 128 ^ suc k
      → k < left
      → Delivers t s (groups k n) s'
      → decode_loop t left multiplier value s ≡ (tcpsocket_complete, value + n * multiplier, s')
  decode_loop-groups k zero multiplier value n s s' h fits d = elim fits [ ]
  decode_loop-groups zero (suc left) multiplier value n s s' h fits d =
      decode_last left multiplier value n s s' (omega arith) (rw (groups_last zero n) at d)
  decode_loop-groups (suc k) (suc left) multiplier value n s s' h fits d = elim (dec_lt n 128) [
    | yes low ↦ decode_last left multiplier value n s s' low (rw (groups_last (suc k) n low) at d)
    | no high ↦
        let (s₁, e, more) : Delivers t s ((n % 128 + 128) ∷ groups k (n / 128)) s' =
          rw (groups_inner k n (omega arith)) at d in
        decode_inner left multiplier value (n % 128) s s₁ (omega arith) e
        ∙ decode_loop-groups k left (multiplier * 128) (value + n % 128 * multiplier) (n / 128) s₁
            s' (omega arith) (omega arith) more
        ∙ ap (λ v. (tcpsocket_complete, v, s'))
            (omega (arith, ap (λ (q : ℕ). q * multiplier) (div-add-mod n 128)))
  ]

  -- `MQTTPacket_decode` reads a number below 128 ^ 4 back from the bytes of `MQTTPacket_encode`, and
  -- stops directly behind them.
  pub decode-encode :
      (n : ℕ) (s s' : S)
      → n < 128 ^ 4
      → Delivers t s (encode n) s'
      → decode t s ≡ (tcpsocket_complete, n, s')
  unfolding decode
  decode-encode n s s' h d =
      decode_loop-groups 3 4 1 0 n s s' h (omega arith) (rw (encode-groups 3 n h) at d)
      ∙ ap (λ v. (tcpsocket_complete, v, s')) (omega arith)
