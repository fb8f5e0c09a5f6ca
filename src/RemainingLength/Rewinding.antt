-- ===== src/RemainingLength/Rewinding.antt =====
-- `MQTTPacket_decode` over a layer that keeps the bytes of a frame.
use Prim.Native.Nat.{bit_and}
use mqtt_client.Prelude.{Bool-cases, inl, inr, suc, zero, ℕ, ◌*◌, ◌+◌, ◌==◌}
use mqtt_client.Prelude.Int.{◌==ℤ◌}
use mqtt_client.Prelude.Predicates.{Bytes}
use mqtt_client.RemainingLength.{decode, decode_loop, max_no_of_remaining_length_bytes}
use mqtt_client.Transport.{Transport, tcpsocket_complete}
use mqtt_client.Transport.Rewinding.{Extends, Extends-refl, Extends_trans, Rewinds}

module _ {S : Type 0} (t : Transport S) (content : S → Bytes) (law : Rewinds t content) where
  decode_loop-Extends :
      (left multiplier value : ℕ) (s : S)
      → Extends (content s) (content (decode_loop t left multiplier value s).2)
  unfolding decode_loop
  decode_loop-Extends zero multiplier value s = Extends-refl (content s)
  decode_loop-Extends (suc left) multiplier value s =
      let (rc, c, s') = t.getch s in
      let value' = value + bit_and c 127 * multiplier in
      let rest = decode_loop-Extends left (multiplier * 128) value' s' in
      let step = law.getch-Extends s in
      elim (Bool-cases (rc ==ℤ tcpsocket_complete)) [
        | inl read ↦ elim (Bool-cases (bit_and c 128 == 0)) [
          | inl last ↦ rw (read, last) step
          | inr more ↦ rw (read, more) (Extends_trans (content s) (content s') _ step rest)
        ]
        | inr failed ↦ rw failed step
      ]

  pub decode-Extends : (s : S) → Extends (content s) (content (decode t s).2)
  unfolding decode
  decode-Extends s = decode_loop-Extends max_no_of_remaining_length_bytes 1 0 s
