-- ===== src/Packet/Send/PublishFrames.antt =====
-- `MQTTPacket_send_publish`: the bytes that it hands over, and that they are read back.
use mathlib.Core.List.{append-nil}
use mqtt_client.Packet.{Publish, header_qos, make_header, publish, publish_type}
use mqtt_client.Packet.Receive.{publish-publish_bytes, publish_bytes, received}
use mqtt_client.Packet.Send.{
  c_string, contents, four_buffers, middle_len, send_buffers, send_four, send_publish, topic_of,
  write_list, write_middle,
}
use mqtt_client.Packet.Send.Frames.{answered, contents_exact, joined, release-conclude, sends_lem}
use mqtt_client.Prelude.{
  Bool, [], ap, arith, false, if◌then◌else◌, leb, length, ltb, refl, some, sym, true, ℕ, ◌++◌, ◌+◌,
  ◌<◌, ◌^◌, ◌||◌, ◌∙◌, ◌∷◌, ◌≡◌,
}
use mqtt_client.Prelude.Predicates.{Bytes}
use mqtt_client.Prelude.Run.{Run, bind_assoc, bind_cong, done, fault, ◌>>=◌}
use mqtt_client.Properties.{Properties, properties_len}
use mqtt_client.Properties.Entry.{IsWf}
use mqtt_client.Properties.Writing.{length-properties_bytes, properties_bytes, properties_write-put}
use mqtt_client.RemainingLength.{encode}
use mqtt_client.Transport.{PacketBuffers, Transport, socket_error}
use mqtt_client.Wire.{Cursor, fresh, put, write_int}
use mqtt_client.Wire.Writing.{
  IsReadable, copy_from-IsReadable, int_bytes, put-nil, put-put, put_exact, utf_bytes,
  write_int-put,
}

-- The message identifier and the properties of a PUBLISH packet.
unfoldable pub middle_bytes : (qos : ℕ) → Publish → Bytes
middle_bytes qos pack =
    (if ltb 0 qos then int_bytes pack.msg_id else [])
    ++ (if leb 5 pack.mqtt_version then properties_bytes pack.properties else [])

-- A packet that can be sent: a topic without zero bytes, and a payload that is there.
pub record IsSendable (pack : Publish) (topic payload : Bytes) : Type 0 where
  pub named : pack.topic ≡ some topic
  pub terminated : c_string topic ≡ topic
  pub loaded : IsReadable pack.payload payload

-- From version 5 on, the properties are well formed and their length has an encoding; before, they are
-- not looked at.
abbrev HasList : Publish → Type 0
HasList pack =
    leb 5 pack.mqtt_version ≡ true → IsWf pack.properties × (pack.properties.total < 128 ^ 4)

-- `m` with its value given back is `m`.
done_bind : {A : Type 0} (m : Run A) → (m >>= λ a. done a) ≡ m
done_bind (done a) = refl
done_bind fault = refl

write_list-put :
    (props : Properties) (c : Cursor)
    → IsWf props
    → write_list props c ≡ put (properties_bytes props) c
unfolding write_list
write_list-put props c wf =
    rw (properties_write-put props c wf, bind_assoc) (done_bind (put (properties_bytes props) c))

write_id_if :
    (b : Bool) (id : ℕ) (c : Cursor)
    → (if b then write_int id c else done c) ≡ put (if b then int_bytes id else []) c
write_id_if true id c = write_int-put id c
write_id_if false id c = sym (put-nil c)

write_list_if :
    (b : Bool) (props : Properties) (c : Cursor)
    → (b ≡ true → IsWf props)
    → (if b then write_list props c else done c) ≡ put (if b then properties_bytes props else []) c
write_list_if true props c wf = write_list-put props c (wf refl)
write_list_if false props c wf = sym (put-nil c)

middle_len-length :
    (b v : Bool) (id : ℕ) (props : Properties)
    → (v ≡ true → IsWf props × (props.total < 128 ^ 4))
    → (if b then 2 else 0) + (if v then properties_len (some props) else 0)
      ≡ length ((if b then int_bytes id else []) ++ (if v then properties_bytes props else []))
unfolding int_bytes
middle_len-length true true id props ok =
    omega (arith, length-properties_bytes props (ok refl).0 (ok refl).1)
middle_len-length true false id props ok = omega arith
middle_len-length false true id props ok =
    omega (arith, length-properties_bytes props (ok refl).0 (ok refl).1)
middle_len-length false false id props ok = omega arith

-- The third buffer is filled exactly.
middle_lem :
    (qos : ℕ) (pack : Publish)
    → HasList pack
    → (write_middle qos pack (fresh (middle_len qos pack)) >>= contents)
      ≡ done (middle_bytes qos pack)
unfolding write_middle middle_bytes middle_len
middle_lem qos pack ok =
    let b = ltb 0 qos in
    let v = leb 5 pack.mqtt_version in
    let front = if b then int_bytes pack.msg_id else [] in
    let back = if v then properties_bytes pack.properties else [] in
    rw
      (
        write_id_if b pack.msg_id,
        bind_cong (put front (fresh (middle_len qos pack))) _ (put back)
            (λ c. write_list_if v pack.properties c (λ e. (ok e).0)),
        put-put front back (fresh (middle_len qos pack)),
      )
      (contents_exact (front ++ back) (middle_len qos pack)
        (middle_len-length b v pack.msg_id pack.properties ok))

-- The buffers of a PUBLISH packet behind its first one.
abbrev pub publish_buffers : (qos : ℕ) → Publish → (topic payload : Bytes) → PacketBuffers
publish_buffers qos pack topic payload =
    four_buffers (int_bytes (length topic)) topic (middle_bytes qos pack) payload pack.mask

topic_of_lem :
    (pack : Publish) (topic : Bytes)
    → pack.topic ≡ some topic
    → c_string topic ≡ topic
    → topic_of pack ≡ done topic
unfolding topic_of
topic_of_lem pack topic named terminated = rw named (ap done terminated)

make_header-qos :
    (type dup qos retained : ℕ) → qos < 4 → header_qos (make_header type dup qos retained) ≡ qos
unfolding make_header header_qos
make_header-qos type dup qos retained h = omega arith

publish_buffers_lem :
    (pack : Publish) (dup qos retained : ℕ) (topic payload : Bytes)
    → pack.mqtt_version < 5
    → 0 < qos
    → qos < 3
    → joined (publish_buffers qos pack topic payload).buffers
      ≡ publish_bytes
          (header_qos (make_header publish_type dup qos retained))
          topic
          pack.msg_id
          payload
unfolding joined publish_bytes middle_bytes utf_bytes int_bytes
publish_buffers_lem pack dup qos retained topic payload older q q' =
    let with_id : ltb 0 qos ≡ true = ground arith in
    let without : leb 5 pack.mqtt_version ≡ false = ground arith in
    rw
      (
        make_header-qos publish_type dup qos retained (omega arith),
        with_id,
        without,
        append-nil payload,
      )
      refl

module _ {S : Type 0} (t : Transport S) where
  send_four_lem :
      (pack : Publish) (header qos : ℕ) (topic payload : Bytes) (s : S)
      → IsReadable pack.payload payload
      → let bufs = publish_buffers qos pack topic payload in
        let buf = header ∷ encode (length (joined bufs.buffers)) in
        send_four t true pack header topic (middle_bytes qos pack) s
        ≡ done (
            answered t
              (buf ∷ middle_bytes qos pack ∷ int_bytes (length topic) ∷ [])
              (t.putdatas buf bufs s))
  unfolding send_four contents int_bytes
  send_four_lem pack header qos topic payload s loaded =
      rw
        (
          write_int-put,
          put_exact (int_bytes (length topic)),
          copy_from-IsReadable pack.payload payload loaded,
          sends_lem,
          release-conclude,
        )
        refl

  -- What `MQTTPacket_send_publish` hands over.
  send_publish_lem :
      (mem : ℕ → Bool) (pack : Publish) (dup qos retained : ℕ) (topic payload : Bytes) (s : S)
      → mem 0 ≡ true
      → mem 1 ≡ true
      → mem 2 ≡ true
      → (ltb 0 qos || leb 5 pack.mqtt_version) ≡ true
      → IsSendable pack topic payload
      → HasList pack
      → let bufs = publish_buffers qos pack topic payload in
        let buf =
          make_header publish_type dup qos retained ∷ encode (length (joined bufs.buffers)) in
        send_publish t mem pack dup qos retained s
        ≡ done (
            answered t
              (buf ∷ middle_bytes qos pack ∷ int_bytes (length topic) ∷ [])
              (t.putdatas buf bufs s))
  unfolding send_publish send_buffers
  send_publish_lem mem pack dup qos retained topic payload s m0 m1 m2 sent ok list =
      rw (m0, m1, m2, sent, topic_of_lem pack topic ok.named ok.terminated)
        (sym (
            bind_assoc (write_middle qos pack (fresh (middle_len qos pack))) contents (λ middle.
              send_four t true pack (make_header publish_type dup qos retained) topic middle s))
          ∙ rw (middle_lem qos pack list) (
              send_four_lem pack (make_header publish_type dup qos retained) qos topic payload s
                ok.loaded))

  -- With memory, `MQTTPacket_send_publish` fills its buffers exactly for a quality of service of 1 or
  -- 2, a version before 5, a topic without zero bytes, a payload that is there, and a topic length and
  -- an identifier of two bytes, and hands them over behind the header byte and the remaining length.
  -- They are the data of a PUBLISH packet, from which `MQTTPacket_publish` takes topic, identifier and
  -- payload back.
  pub send_publish-publish :
      (mem mem' : ℕ → Bool) (pack : Publish) (dup qos retained : ℕ) (topic payload : Bytes) (s : S)
      → ((k : ℕ) → mem k ≡ true)
      → ((k : ℕ) → mem' k ≡ true)
      → IsSendable pack topic payload
      → pack.mqtt_version < 5
      → 0 < qos
      → qos < 3
      → length topic < 65536
      → pack.msg_id < 65536
      → let bufs = publish_buffers qos pack topic payload in
        let header = make_header publish_type dup qos retained in
        let buf = header ∷ encode (length (joined bufs.buffers)) in
        (send_publish t mem pack dup qos retained s
          ≡ done (
              answered t
                (buf ∷ middle_bytes qos pack ∷ int_bytes (length topic) ∷ [])
                (t.putdatas buf bufs s)))
        × (publish mem' pack.mqtt_version header (joined bufs.buffers)
            ≡ done (some (received pack.mqtt_version header topic pack.msg_id payload)))
  send_publish-publish mem mem' pack dup qos retained topic payload s m m' ok older q q' ht hi = (
    send_publish_lem mem pack dup qos retained topic payload s (m 0) (m 1) (m 2) (ground arith) ok
        (λ e. absurd (ground arith)),
    ap (publish mem' pack.mqtt_version header)
          (publish_buffers_lem pack dup qos retained topic payload older q q')
        ∙ publish-publish_bytes mem' pack.mqtt_version header pack.msg_id topic payload (m' 0)
            (m' 1) ht hi,
  )
    where
      header : ℕ
      header = make_header publish_type dup qos retained

  -- For a quality of service of 0 and a version before 5, `MQTTPacket_send_publish` sends nothing: it
  -- answers with the socket error, the state is as before and nothing stays allocated.
  pub send_publish_unsent :
      (mem : ℕ → Bool) (pack : Publish) (dup retained : ℕ) (s : S)
      → pack.mqtt_version < 5
      → send_publish t mem pack dup 0 retained s
        ≡ done (record { rc = socket_error; mask = pack.mask; state = s; held = [] })
  unfolding send_publish
  send_publish_unsent mem pack dup retained s older = ground arith
