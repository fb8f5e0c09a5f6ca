-- ===== src/Packet/Receive.antt =====
-- What the readers of MQTTPacket.c accept: each against the layout of its packet.
use mqtt_client.Packet.{Publish, header_qos, no_mask, publish, publish_rest}
use mqtt_client.Prelude.{
  Bool, Bool-cases, [], arith, drop, false, if◌then◌else◌, inl, inr, leb, leb→le, length, ltb, some,
  take, true, ℕ, ◌*◌, ◌++◌, ◌+◌, ◌<◌, ◌∷◌, ◌≡◌, ◌≢◌,
}
use mqtt_client.Prelude.Predicates.{Bytes}
use mqtt_client.Prelude.Run.{done, fault}
use mqtt_client.Properties.{no_properties}
use mqtt_client.Wire.{read_int, read_utf_len}
use mqtt_client.Wire.RoundTrip.{copy_from_lem, read_int-int_bytes, read_utf_len-utf_bytes}
use mqtt_client.Wire.Writing.{int_bytes, utf_bytes}

-- The data of a PUBLISH packet: the topic, the identifier for a quality of service above 0, and the
-- payload.
unfoldable pub publish_bytes : (qos : ℕ) → (topic : Bytes) → (id : ℕ) → (payload : Bytes) → Bytes
publish_bytes qos topic id payload =
    utf_bytes topic ++ ((if ltb 0 qos then int_bytes id else []) ++ payload)

-- The packet that `MQTTPacket_publish` makes of it.
abbrev pub received :
    (version header : ℕ) → (topic : Bytes) → (id : ℕ) → (payload : Bytes) → Publish
received version header topic id payload = record {
  header = header;
  topic = some topic;
  topiclen = length topic;
  msg_id = if ltb 0 (header_qos header) then id else 0;
  payload = record { len = length payload; chars = some payload };
  mqtt_version = version;
  properties = no_properties;
  mask = no_mask;
}

publish_rest_lem :
    (version header id : ℕ) (topic payload : Bytes)
    → id < 65536
    → publish_rest version header topic
        (length topic)
        ((if ltb 0 (header_qos header) then int_bytes id else []) ++ payload)
      ≡ done (some (received version header topic id payload))
unfolding publish_rest
publish_rest_lem version header id topic payload h = elim (Bool-cases (ltb 0 (header_qos header))) [
  | inl some_qos ↦
      let long : ltb (length (int_bytes id ++ payload)) 2 ≡ false =
        unfold int_bytes in ground arith in
      rw (some_qos, long, read_int-int_bytes id payload h)
  | inr zero_qos ↦ rw zero_qos
]

-- Given memory, `MQTTPacket_publish` recovers topic, identifier and payload from the data of a PUBLISH
-- packet whose topic length and identifier fit into two bytes, whatever the payload. For a quality of
-- service of 0 the data have no identifier, and it is 0.
pub publish-publish_bytes :
    (mem : ℕ → Bool) (version header id : ℕ) (topic payload : Bytes)
    → mem 0 ≡ true
    → mem 1 ≡ true
    → length topic < 65536
    → id < 65536
    → publish mem version header (publish_bytes (header_qos header) topic id payload)
      ≡ done (some (received version header topic id payload))
unfolding publish publish_bytes
publish-publish_bytes mem version header id topic payload m0 m1 ht hi =
    rw (m0, m1, read_utf_len-utf_bytes topic rest 0 ht)
      (publish_rest_lem version header id topic payload hi)
  where
    rest : Bytes
    rest = (if ltb 0 (header_qos header) then int_bytes id else []) ++ payload

publish_rest-ne-fault :
    (version header topiclen : ℕ) (topic cur : Bytes)
    → publish_rest version header topic topiclen cur ≢ fault
unfolding publish_rest read_int
publish_rest-ne-fault version header topiclen topic [] e = ground arith
publish_rest-ne-fault version header topiclen topic (a ∷ []) e = ground arith
publish_rest-ne-fault version header topiclen topic (a ∷ b ∷ cur) e = ground arith

-- `MQTTPacket_publish` reads nothing outside the data of the packet.
pub publish-ne-fault :
    (mem : ℕ → Bool) (version header : ℕ) (block : Bytes) → publish mem version header block ≢ fault
unfolding publish read_utf_len read_int
publish-ne-fault mem version header [] e = ground arith
publish-ne-fault mem version header (a ∷ []) e = ground arith
publish-ne-fault mem version header (a ∷ b ∷ block) e =
    let len = 256 * a + b in
    elim (Bool-cases (leb len (length block))) [
      | inl fits ↦
          let copied = copy_from_lem len block (leb→le _ _ fits) in
          ground (arith, publish_rest-ne-fault version header len (take len block) (drop len block))
      | inr short ↦ ground arith
    ]
