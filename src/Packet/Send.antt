-- ===== src/Packet/Send.antt =====
-- The sending functions of MQTTPacket.c: `MQTTPacket_send`, `MQTTPacket_sends` and the functions that
-- build the packets for them.
pub mod Frames
pub mod PublishFrames
pub mod ConnectFrames
mod Runs
use mqtt_client.Packet.{
  Publish, connect_type, make_header, no_mask, puback_type, publish_type, subscribe_type,
}
use mqtt_client.Prelude.{
  Bool, List, Option, [], false, if◌then◌else◌, leb, length, ltb, none, some, true, ℕ, ◌%◌, ◌&&◌,
  ◌*◌, ◌++◌, ◌+◌, ◌==◌, ◌||◌, ◌∷◌,
}
use mqtt_client.Prelude.Int.{ℤ, ◌==ℤ◌}
use mqtt_client.Prelude.Predicates.{Bytes}
use mqtt_client.Prelude.Run.{Run, done, fault, ◌>>=◌}
use mqtt_client.Properties.{Properties, properties_len, properties_write}
use mqtt_client.RemainingLength.{encode, encode_count}
use mqtt_client.Transport.{
  PacketBuffers, Transport, socket_error, tcpsocket_complete, tcpsocket_interrupted,
}
use mqtt_client.Wire.{
  Cursor, LenString, copy_from, fresh, put, write_char, write_data, write_int, write_utf,
}

-- What a fully written buffer holds. To hand over a byte that nothing has written is a fault.
unfoldable pub contents : Cursor → Run Bytes
contents c = if c.room == 0 then done c.written else fault

-- A C string in memory: `strlen` stops at the first zero.
unfoldable pub c_string : Bytes → Bytes
c_string [] = []
c_string (b ∷ bs) = if b == 0 then [] else b ∷ c_string bs

-- The first buffer of a packet: the header byte, and `buflen` as a variable byte integer.
unfoldable pub head_buffer : (header buflen : ℕ) → Run Bytes
head_buffer header buflen = do
  c ← put (header ∷ []) (fresh (1 + encode_count buflen))
  c ← put (encode buflen) c
  contents c

unfoldable pub total_length : List Bytes → ℕ
total_length [] = 0
total_length (b ∷ bufs) = length b + total_length bufs

-- The outcome of a sending function: `rc`, the websocket mask that the layer below has left, the
-- state, and the buffers that the call has allocated and not released.
pub record Sent (S : Type 0) : Type 0 where
  pub rc : ℤ
  pub mask : Bytes
  pub state : S
  pub held : List Bytes

-- The members of `Clients` that a CONNECT packet is made of; `none` is `NULL`.
pub record Credentials : Type 0 where
  pub client_id : Bytes
  pub username : Option Bytes
  pub password : Option LenString
  pub keep_alive_interval : ℕ

-- The flags byte of CONNECT.
unfoldable pub connect_flags : Credentials → ℕ
connect_flags client =
    (elim client.username [ none ↦ 0 | some _ ↦ 128 ])
    + (elim client.password [ none ↦ 0 | some _ ↦ 64 ])

-- `len` of `MQTTPacket_send_connect`.
unfoldable pub connect_len : Credentials → ℕ
connect_len client =
    10
    + length client.client_id
    + 2
    + (elim client.username [ none ↦ 0 | some name ↦ length name + 2 ])
    + (elim client.password [ none ↦ 0 | some word ↦ word.len + 2 ])

-- "MQTT".
abbrev pub protocol_name : Bytes
protocol_name = 77 ∷ 81 ∷ 84 ∷ 84 ∷ []

write_username : Option Bytes → Cursor → Run Cursor
write_username none c = done c
write_username (some name) c = write_utf name c

write_password : Option LenString → Cursor → Run Cursor
write_password none c = done c
write_password (some word) c = do bytes ← copy_from word; write_data bytes c

pub write_connect : (version : ℕ) → Credentials → Cursor → Run Cursor
unfolding write_username write_password
write_connect version client c = do
  c ← write_utf protocol_name c
  c ← write_char (version % 256) c
  c ← write_char (connect_flags client) c
  c ← write_int client.keep_alive_interval c
  c ← write_utf client.client_id c
  c ← write_username client.username c
  write_password client.password c

-- `datalen` of `MQTTPacket_send_subscribe`.
unfoldable pub subscribe_len : List Bytes → ℕ
subscribe_len topics = 2 + length topics * 3 + total_length topics

-- The loop of `MQTTPacket_send_subscribe`. Without a quality of service for a topic `qosElem` is
-- `NULL`.
pub write_topics : List Bytes → (qoss : List ℕ) → Cursor → Run Cursor
write_topics [] qoss c = done c
write_topics (topic ∷ topics) [] c = fault
write_topics (topic ∷ topics) (qos ∷ qoss) c = do
  c ← write_utf topic c
  c ← write_char (qos % 256) c
  write_topics topics qoss c

-- `MQTTProperties_write` for its place, with the result ignored.
unfoldable pub write_list : Properties → Cursor → Run Cursor
write_list props c = do (_, c) ← properties_write (some props) c; done c

-- The third buffer of a PUBLISH packet: identifier and properties.
pub write_middle : (qos : ℕ) → Publish → Cursor → Run Cursor
write_middle qos pack c = do
  c ← (if ltb 0 qos then write_int pack.msg_id c else done c)
  if leb 5 pack.mqtt_version then write_list pack.properties c else done c

unfoldable pub middle_len : (qos : ℕ) → Publish → ℕ
middle_len qos pack =
    (if ltb 0 qos then 2 else 0)
    + (if leb 5 pack.mqtt_version then properties_len (some pack.properties) else 0)

-- `strlen(pack->topic)` and the characters; `NULL` is a fault.
unfoldable pub topic_of : Publish → Run Bytes
topic_of pack = elim pack.topic [ none ↦ fault | some topic ↦ done (c_string topic) ]

-- `packetbufs` of `MQTTPacket_send` and of `MQTTPacket_send_publish`.
abbrev pub one_buffer : (buffer : Bytes) → (free_data : Bool) → PacketBuffers
one_buffer buffer free_data = record {
  buffers = buffer ∷ [];
  frees = free_data ∷ [];
  mask = no_mask;
}

abbrev pub four_buffers : (topiclen topic middle payload mask : Bytes) → PacketBuffers
four_buffers topiclen topic middle payload mask = record {
  buffers = topiclen ∷ topic ∷ middle ∷ payload ∷ [];
  frees = true ∷ false ∷ true ∷ false ∷ [];
  mask = mask;
}

module _ {S : Type 0} (t : Transport S) where
  -- Behind `WebSocket_putdatas`, whose result is the last argument.
  unfoldable pub conclude : (buf : Bytes) → ℤ × Bytes × S → Sent S
  conclude buf (rc, mask, s) = record {
    rc = rc;
    mask = mask;
    state = if rc ==ℤ tcpsocket_complete then t.touch_sent s else s;
    held = if rc ==ℤ tcpsocket_interrupted then buf ∷ [] else [];
  }

  -- `MQTTPacket_sends`.
  pub sends : (mem : Bool) → (header : ℕ) → PacketBuffers → S → Run (Sent S)
  sends mem header bufs s =
      if mem
      then (do
        buf ← head_buffer header (total_length bufs.buffers)
        done (conclude buf (t.putdatas buf bufs s)))
      else done (record { rc = socket_error; mask = bufs.mask; state = s; held = [] })

  -- `MQTTPacket_send`.
  pub send : (mem : Bool) → (header : ℕ) → (buffer : Bytes) → (free_data : Bool) → S → Run (Sent S)
  send mem header buffer free_data s =
      if mem
      then (do
        buf ← head_buffer header (length buffer)
        done (conclude buf (t.putdatas buf (one_buffer buffer free_data) s)))
      else done (record { rc = socket_error; mask = no_mask; state = s; held = [] })

  -- `if (rc != TCPSOCKET_INTERRUPTED) free(buf);`
  unfoldable pub release_unless_interrupted : List Bytes → Sent S → Sent S
  release_unless_interrupted bufs sent =
      if sent.rc ==ℤ tcpsocket_interrupted then record sent { held = sent.held ++ bufs } else sent

  -- The result of a call whose first `malloc` fails.
  abbrev pub refused : S → Sent S
  refused s = record { rc = socket_error; mask = no_mask; state = s; held = [] }

  -- `MQTTPacket_send_ack`, which is `MQTTPacket_send_puback` but for a log entry.
  pub send_puback : (mem : ℕ → Bool) → (msgid : ℕ) → S → Run (Sent S)
  send_puback mem msgid s =
      if mem 0
      then (do
        c ← write_int msgid (fresh 2)
        buf ← contents c
        sent ← send (mem 1) (make_header puback_type 0 0 0) buf true s
        done (release_unless_interrupted (buf ∷ []) sent))
      else done (refused s)

  -- `MQTTPacket_send_connect`, which releases nothing.
  pub send_connect : (mem : ℕ → Bool) → (version : ℕ) → Credentials → S → Run (Sent S)
  send_connect mem version client s =
      if mem 0
      then (do
        c ← write_connect version client (fresh (connect_len client))
        buf ← contents c
        sent ← send (mem 1) (make_header connect_type 0 0 0) buf true s
        done (record sent { held = sent.held ++ buf ∷ [] }))
      else done (refused s)

  -- `MQTTPacket_send_subscribe`.
  pub send_subscribe :
      (mem : ℕ → Bool)
      → (topics : List Bytes) → (qoss : List ℕ) → (msgid dup : ℕ) → S
      → Run (Sent S)
  send_subscribe mem topics qoss msgid dup s =
      if mem 0
      then (do
        c ← write_int msgid (fresh (subscribe_len topics))
        c ← write_topics topics qoss c
        buf ← contents c
        sent ← send (mem 1) (make_header subscribe_type dup 1 0) buf true s
        done (release_unless_interrupted (buf ∷ []) sent))
      else done (refused s)

  -- The branch of `MQTTPacket_send_publish` that sends, behind `bufs[2]`.
  unfoldable pub send_four :
      (mem : Bool) → Publish → (header : ℕ) → (topic middle : Bytes) → S → Run (Sent S)
  send_four mem pack header topic middle s = do
    c ← write_int (length topic) (fresh 2)
    topiclen ← contents c
    payload ← copy_from pack.payload
    sent ← sends mem header (four_buffers topiclen topic middle payload pack.mask) s
    done (release_unless_interrupted (middle ∷ topiclen ∷ []) sent)

  send_buffers : (mem : ℕ → Bool) → Publish → (dup qos retained : ℕ) → S → Run (Sent S)
  send_buffers mem pack dup qos retained s = do
    topic ← topic_of pack
    let sending = (do
      c ← write_middle qos pack (fresh (middle_len qos pack))
      middle ← contents c
      send_four (mem 2) pack (make_header publish_type dup qos retained) topic middle s)
    if mem 1
        then sending
        else done (record { rc = socket_error; mask = pack.mask; state = s; held = [] })

  -- `MQTTPacket_send_publish`. `mask` is what is left in `pack->mask`.
  pub send_publish : (mem : ℕ → Bool) → Publish → (dup qos retained : ℕ) → S → Run (Sent S)
  send_publish mem pack dup qos retained s =
      if mem 0 && (ltb 0 qos || leb 5 pack.mqtt_version)
      then send_buffers mem pack dup qos retained s
      else done (record { rc = socket_error; mask = pack.mask; state = s; held = [] })
