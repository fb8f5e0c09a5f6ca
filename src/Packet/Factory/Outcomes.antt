-- ===== src/Packet/Factory/Outcomes.antt =====
-- What `MQTTPacket_Factory` yields: a whole PUBLISH packet, and the packet types behind the end of its
-- table.
use mqtt_client.Packet.{Publish, header_qos, header_type, publish, publish_type}
use mqtt_client.Packet.Factory.{
  Memory, build, build_entry, build_publish, builder_for, factory, finish, leave, make_packet,
  new_packets, on_data, outcome_of, publish_packet,
}
use mqtt_client.Packet.Receive.{publish-publish_bytes, publish_bytes, received}
use mqtt_client.Prelude.{
  arith, false, get_elem?-none, get_elem?-some, inl, length, length-append, ltb, refl, some, take,
  true, ℕ, ◌++◌, ◌<◌, ◌^◌, ◌↔◌, ◌∙◌, ◌∷◌, ◌≡◌, ◌≤◌, ◌⊎◌,
}
use mqtt_client.Prelude.Predicates.{Bytes}
use mqtt_client.Prelude.Run.{done, fault, ◌>>=◌}
use mqtt_client.RemainingLength.{decode, encode}
use mqtt_client.RemainingLength.RoundTrip.{decode-encode}
use mqtt_client.Transport.{Transport, tcpsocket_complete}
use mqtt_client.Transport.Delivery.{Delivers}
use mqtt_client.Wire.RoundTrip.{take-append}
use native.Mathlib.Decide.{dec_lt}

-- For a packet type of four bits, `MQTTPacket_Factory` reads `new_packets` behind its end exactly for
-- type 13 (PINGRESP), and from version 5 on for types 14 and 15 as well.
pub builder_for-fault_iff :
    (version ptype : ℕ)
    → ptype < 16
    → (builder_for version ptype ≡ fault) ↔ ((ptype ≡ 13) ⊎ ((5 ≤ version) × (13 < ptype)))
unfolding builder_for
builder_for-fault_iff version ptype h = elim (dec_lt ptype 13) [
  | yes low ↦
      let (entry, e) = get_elem?-some new_packets ptype low in
      (λ p. absurd (ground (arith, e)), λ r. absurd (omega arith))
  | no high ↦
      let e = get_elem?-none new_packets ptype (omega arith) in
      (λ p. ground (arith, e), λ r. ground (arith, e))
]

make_packet_ping :
    (m : Memory) (version header : ℕ) (block : Bytes)
    → header_type header ≡ 13
    → make_packet m version header block ≡ fault
unfolding make_packet
make_packet_ping m version header block ping =
    let behind = (builder_for-fault_iff version 13 (omega arith)).1 (inl refl) in rw (ping, behind)

builder_for_publish : (version : ℕ) → builder_for version publish_type ≡ done (some build_publish)
unfolding builder_for
builder_for_publish version = ground arith

make_packet-publish :
    (m : Memory) (version header : ℕ) (block : Bytes) (p : Publish)
    → header_type header ≡ publish_type
    → publish m.mem version header block ≡ done (some p)
    → make_packet m version header block ≡ done (tcpsocket_complete, some (publish_packet p))
unfolding make_packet build_entry build outcome_of
make_packet-publish m version header block p type e = rw (type, builder_for_publish version, e)

module _ {S : Type 0} (t : Transport S) (m : Memory) (version : ℕ) where
  on_data_whole :
      (header n : ℕ) (block : Bytes) (s : S)
      → n ≤ length block
      → on_data t m version header n (some block, s)
        ≡ (make_packet m version header (take n block) >>= λ outcome. done (finish t s outcome))
  unfolding on_data
  on_data_whole header n block s h =
      let whole : ltb (length block) n ≡ false = ground arith in rw whole

  factory_body :
      (header n : ℕ) (s s₁ s₂ : S)
      → t.getch s ≡ (tcpsocket_complete, header, s₁)
      → decode t s₁ ≡ (tcpsocket_complete, n, s₂)
      → factory t m version s
        ≡ (on_data t m version header n (t.getdata n s₂) >>= λ r. done (leave t (t.frame_pos s) r))
  unfolding factory
  factory_body header n s s₁ s₂ r₁ r₂ = rw (r₁, r₂)

  -- A packet of type 13 (PINGRESP) whose header byte, remaining length and data are read completely
  -- takes `MQTTPacket_Factory` out of its defined behaviour.
  pub factory_ping :
      (header n : ℕ) (block : Bytes) (s s₁ s₂ s₃ : S)
      → t.getch s ≡ (tcpsocket_complete, header, s₁)
      → decode t s₁ ≡ (tcpsocket_complete, n, s₂)
      → t.getdata n s₂ ≡ (some block, s₃)
      → n ≤ length block
      → header_type header ≡ 13
      → factory t m version s ≡ fault
  factory_ping header n block s s₁ s₂ s₃ r₁ r₂ r₃ fits ping =
      factory_body header n s s₁ s₂ r₁ r₂
      ∙ rw (
        r₃,
        on_data_whole header n block s₃ fits,
        make_packet_ping m version header (take n block) ping,
      )

  -- A PUBLISH packet that the transport delivers completely comes out of `MQTTPacket_Factory` as topic,
  -- identifier and payload, and the time of the reception is taken. The condition is that memory is
  -- given, that topic length and identifier fit into two bytes and that the data are shorter than
  -- 128 ^ 4 bytes.
  pub factory-publish :
      (header id : ℕ) (topic payload more : Bytes) (s s₁ s₂ : S)
      → m.mem 0 ≡ true
      → m.mem 1 ≡ true
      → header_type header ≡ publish_type
      → length topic < 65536
      → id < 65536
      → length (publish_bytes (header_qos header) topic id payload) < 128 ^ 4
      → Delivers t s
          (header ∷ encode (length (publish_bytes (header_qos header) topic id payload)))
          s₁
      → t.getdata (length (publish_bytes (header_qos header) topic id payload)) s₁
        ≡ (some (publish_bytes (header_qos header) topic id payload ++ more), s₂)
      → factory t m version s
        ≡ done (
          tcpsocket_complete,
          some (publish_packet (received version header topic id payload)),
          t.touch_received s₂,
        )
  factory-publish header id topic payload more s s₁ s₂ m0 m1 type ht hi small (s₀, r, d) got =
      let block = publish_bytes (header_qos header) topic id payload in
      let n = length block in
      let fits : n ≤ length (block ++ more) = omega (arith, length-append block more) in
      let read = publish-publish_bytes m.mem version header id topic payload m0 m1 ht hi in
      factory_body header n s s₀ s₁ r (decode-encode t n s₀ s₁ small d)
      ∙ rw
          (
            got,
            on_data_whole header n (block ++ more) s₂ fits,
            take-append block more,
            make_packet-publish m version header block _ type read,
          )
          (unfold leave finish in refl)
