-- ===== src/Packet/Acks.antt =====
-- The readers of the acknowledgements: `MQTTPacket_ack`, `MQTTPacket_connack` and
-- `MQTTPacket_suback`.
use mathlib.Core.List.{append-nil, append_assoc}
use mqtt_client.Packet.{ack, append_qos, disconnect_type, header_type, suback, suback_loop}
use mqtt_client.Prelude.{
  Bool, [], ap, arith, false, inl, inr, length, ltb, none, refl, some, sym, true, ℕ, ◌%◌, ◌*◌, ◌++◌,
  ◌+◌, ◌/◌, ◌<◌, ◌↔◌, ◌∷◌, ◌≡◌, ◌≢◌, ◌⊎◌,
}
use mqtt_client.Prelude.Predicates.{AllBytes, Bytes}
use mqtt_client.Prelude.Run.{done, fault}
use mqtt_client.Wire.{read_int}
use mqtt_client.Wire.RoundTrip.{int_bytes-eq}
use mqtt_client.Wire.Writing.{int_bytes}

suback_loop-append :
    (mem : ℕ → Bool) (k : ℕ) (cur held : Bytes)
    → ((k : ℕ) → mem k ≡ true)
    → suback_loop mem k cur (some held) ≡ done (some (some (held ++ cur)))
unfolding suback_loop append_qos
suback_loop-append mem k [] held ok = ap (λ r. done (some (some r))) (sym (append-nil held))
suback_loop-append mem k (b ∷ cur) held ok =
    rw (ok k, ok (k + 1), suback_loop-append mem (k + 2) cur (held ++ b ∷ []) ok)
      (ap (λ r. done (some (some r))) (append_assoc held (b ∷ []) cur))

suback_long :
    (mem : ℕ → Bool) (garbage : Bool) (version header a b q : ℕ) (qoss : Bytes)
    → ((k : ℕ) → mem k ≡ true)
    → suback mem garbage version header (a ∷ b ∷ q ∷ qoss)
      ≡ done (
          some (record {
            header = header;
            msg_id = 256 * a + b;
            mqtt_version = version;
            qoss = q ∷ qoss;
          }))
unfolding suback read_int
suback_long mem garbage version header a b q qoss ok =
    let long : ltb (length (a ∷ b ∷ q ∷ qoss)) 2 ≡ false = ground arith in
    rw (ok 0, ok 1, long, suback_loop-append mem 2 (q ∷ qoss) [] ok)

-- Given memory, a SUBACK packet with a two-byte identifier and at least one return code yields the
-- identifier and all the codes in order.
pub suback_codes :
    (mem : ℕ → Bool) (garbage : Bool) (version header id q : ℕ) (qoss : Bytes)
    → ((k : ℕ) → mem k ≡ true)
    → id < 65536
    → suback mem garbage version header (int_bytes id ++ q ∷ qoss)
      ≡ done
          (some (record { header = header; msg_id = id; mqtt_version = version; qoss = q ∷ qoss }))
unfolding int_bytes
suback_codes mem garbage version header id q qoss ok h =
    let same : 256 * (id / 256 % 256) + id % 256 ≡ id = omega arith in
    rw (suback_long mem garbage version header (id / 256 % 256) (id % 256) q qoss ok, same)

-- Given memory, `MQTTPacket_suback` leaves its defined behaviour exactly on a packet without return
-- codes, and there exactly if the word that it takes for `properties.array` is not zero.
pub suback-fault_iff :
    (mem : ℕ → Bool) (garbage : Bool) (version header : ℕ) (block : Bytes)
    → ((k : ℕ) → mem k ≡ true)
    → (suback mem garbage version header block ≡ fault) ↔ ((length block ≡ 2) × (garbage ≡ true))
unfolding suback read_int
suback-fault_iff mem garbage version header [] ok =
    (λ e. absurd (ground (arith, ok 0)), λ (h, g). absurd (omega arith))
suback-fault_iff mem garbage version header (a ∷ []) ok =
    (λ e. absurd (ground (arith, ok 0)), λ (h, g). absurd (omega arith))
suback-fault_iff mem garbage version header (a ∷ b ∷ []) ok =
    (λ e. (refl, ground (arith, ok 0, ok 1)), λ (h, g). ground (arith, ok 0, ok 1))
suback-fault_iff mem garbage version header (a ∷ b ∷ q ∷ qoss) ok =
    let read = suback_long mem garbage version header a b q qoss ok in
    (λ e. absurd (ground (arith, read)), λ (h, g). absurd (omega arith))

-- Given memory and a header that is not that of a DISCONNECT packet, `MQTTPacket_ack` either yields
-- `NULL` from fewer than two bytes, or the identifier that the bytes start with, whatever follows.
pub ack_lem :
    (mem : ℕ → Bool) (stale version header : ℕ) (block : Bytes)
    → mem 0 ≡ true
    → header_type header ≢ disconnect_type
    → AllBytes block
    → (ack mem stale version header block ≡ done none) × (length block < 2)
      ⊎ ((id : ℕ) × (rest : Bytes) × (block ≡ int_bytes id ++ rest)
          × (ack mem stale version header block
              ≡ done (some (record { header = header; msg_id = id; mqtt_version = version }))))
unfolding ack read_int
ack_lem mem stale version header [] m0 h bytes = inl (ground (arith, m0, h), omega arith)
ack_lem mem stale version header (a ∷ []) m0 h bytes = inl (ground (arith, m0, h), omega arith)
ack_lem mem stale version header (a ∷ b ∷ rest) m0 h (ha, (hb, bytes)) =
    inr (256 * a + b, rest, rw (int_bytes-eq a b ha hb), ground (arith, m0, h))
