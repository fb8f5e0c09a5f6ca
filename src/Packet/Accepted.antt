-- ===== src/Packet/Accepted.antt =====
-- What a success of `MQTTPacket_publish`, `MQTTPacket_ack` and `MQTTPacket_connack` says of the data.
use mathlib.Core.Path.{subst}
use mqtt_client.Packet.{Publish, header_qos, publish, publish_rest}
use mqtt_client.Packet.Receive.{publish_bytes, received}
use mqtt_client.Prelude.{
  Bool, Bool-cases, [], arith, drop, false, if◌then◌else◌, inl, inr, leb, leb→le, length,
  length-take, ltb, some, sym, take, take-append-drop, true, ℕ, ◌*◌, ◌++◌, ◌+◌, ◌<◌, ◌∷◌, ◌≡◌,
}
use mqtt_client.Prelude.Predicates.{All-drop, AllBytes, Bytes, IsByte}
use mqtt_client.Prelude.Run.{done}
use mqtt_client.Wire.{read_int, read_utf_len}
use mqtt_client.Wire.RoundTrip.{copy_from_lem, int_bytes-eq}
use mqtt_client.Wire.Writing.{int_bytes, utf_bytes}

-- What the data behind the topic was.
abbrev Behind : (version header : ℕ) → (topic cur : Bytes) → Publish → Type 0
Behind version header topic cur p =
    (id : ℕ) × (payload : Bytes) × (id < 65536)
    × (cur ≡ (if ltb 0 (header_qos header) then int_bytes id else []) ++ payload)
    × (p ≡ received version header topic id payload)

with_id :
    (version header : ℕ) (topic cur : Bytes) (p : Publish)
    → AllBytes cur
    → ltb 0 (header_qos header) ≡ true
    → publish_rest version header topic (length topic) cur ≡ done (some p)
    → Behind version header topic cur p
unfolding publish_rest read_int
with_id version header topic [] p bytes q e = absurd (ground arith)
with_id version header topic (a ∷ []) p bytes q e = absurd (ground arith)
with_id version header topic (a ∷ b ∷ cur) p (ha, (hb, bytes)) q e =
    (256 * a + b, cur, omega arith, rw (q, int_bytes-eq a b ha hb), ground arith)

without_id :
    (version header : ℕ) (topic cur : Bytes) (p : Publish)
    → ltb 0 (header_qos header) ≡ false
    → publish_rest version header topic (length topic) cur ≡ done (some p)
    → Behind version header topic cur p
unfolding publish_rest
without_id version header topic cur p q e = (0, cur, omega arith, rw q, ground arith)

publish_rest_sound :
    (version header : ℕ) (topic cur : Bytes) (p : Publish)
    → AllBytes cur
    → publish_rest version header topic (length topic) cur ≡ done (some p)
    → Behind version header topic cur p
publish_rest_sound version header topic cur p bytes e =
    elim (Bool-cases (ltb 0 (header_qos header))) [
      | inl some_qos ↦ with_id version header topic cur p bytes some_qos e
      | inr zero_qos ↦ without_id version header topic cur p zero_qos e
    ]

layout :
    (header : ℕ) (block : Bytes) (id : ℕ) (payload : Bytes) (a b : ℕ)
    → a < 256
    → b < 256
    → length (take (256 * a + b) block) ≡ 256 * a + b
    → drop (256 * a + b) block ≡ (if ltb 0 (header_qos header) then int_bytes id else []) ++ payload
    → a ∷ b ∷ block ≡ publish_bytes (header_qos header) (take (256 * a + b) block) id payload
unfolding publish_bytes utf_bytes
layout header block id payload a b ha hb sized cut =
    rw (sized, int_bytes-eq a b ha hb, ← cut, take-append-drop (256 * a + b) block)

-- If `MQTTPacket_publish` yields a packet from bytes, then these are the data of a PUBLISH packet, and
-- topic, identifier and payload are the packet's.
pub publish_sound :
    (mem : ℕ → Bool) (version header : ℕ) (block : Bytes) (p : Publish)
    → AllBytes block
    → publish mem version header block ≡ done (some p)
    → (topic : Bytes) × (id : ℕ) × (payload : Bytes) × (length topic < 65536)
      × (id < 65536)
      × (block ≡ publish_bytes (header_qos header) topic id payload)
      × (p ≡ received version header topic id payload)
unfolding publish read_utf_len read_int
publish_sound mem version header [] p bytes e = absurd (ground arith)
publish_sound mem version header (a ∷ []) p bytes e = absurd (ground arith)
publish_sound mem version header (a ∷ b ∷ block) p (ha, (hb, bytes)) e =
    let len = 256 * a + b in
    elim (Bool-cases (leb len (length block))) [
      | inl fits ↦
          let topic = take len block in
          let copied = copy_from_lem len block (leb→le _ _ fits) in
          let sized : length topic ≡ len = omega (arith, length-take len block, leb→le _ _ fits) in
          let behind : publish_rest version header topic len (drop len block) ≡ done (some p) =
            ground arith in
          let (id, payload, small, cut, same) =
            publish_rest_sound version header topic (drop len block) p
              (All-drop IsByte len block bytes)
              (subst (λ k. publish_rest version header topic k (drop len block) ≡ done (some p))
                (sym sized) behind) in
          (
            topic,
            id,
            payload,
            omega arith,
            small,
            layout header block id payload a b ha hb sized cut,
            same,
          )
      | inr short ↦ absurd (ground arith)
    ]
