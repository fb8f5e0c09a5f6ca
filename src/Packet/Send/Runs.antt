-- ===== src/Packet/Send/Runs.antt =====
-- Examples of packets that are sent over a transport of test data.
use mqtt_client.Packet.{
  Publish, ack, connect_type, header_qos, make_header, puback_type, publish, publish_type,
  subscribe_type,
}
use mqtt_client.Packet.Receive.{received}
use mqtt_client.Packet.Send.{
  Credentials, Sent, c_string, conclude, one_buffer, send_connect, send_puback, send_publish,
  send_subscribe,
}
use mqtt_client.Packet.Send.ConnectFrames.{
  connect_bytes, send_connect-connect_bytes, send_subscribe-topics_bytes, topics_bytes,
}
use mqtt_client.Packet.Send.Frames.{answered, joined, send_puback-ack}
use mqtt_client.Packet.Send.PublishFrames.{
  IsSendable, middle_bytes, publish_buffers, send_publish-publish,
}
use mqtt_client.Prelude.{Bool, List, [], arith, length, refl, some, true, ℕ, ◌++◌, ◌∷◌, ◌≡◌}
use mqtt_client.Prelude.Predicates.{Bytes}
use mqtt_client.Prelude.Run.{done}
use mqtt_client.RemainingLength.{encode}
use mqtt_client.Transport.{PacketBuffers}
use mqtt_client.Transport.Stream.{Stream, incoming_stream, stream_transport}
use mqtt_client.Wire.Writing.{int_bytes}

abbrev allocates : ℕ → Bool
allocates k = true

abbrev idle : Stream
idle = incoming_stream []

abbrev topic : Bytes
topic = 97 ∷ 98 ∷ []

abbrev payload : Bytes
payload = 5 ∷ 6 ∷ 7 ∷ []

-- A message with topic "ab" and identifier 7.
abbrev message : Publish
message = received 4 50 topic 7 payload

message-IsSendable : IsSendable message topic payload
unfolding c_string
message-IsSendable = record {
  named = refl;
  terminated = refl;
  loaded = record { holds = refl; sized = refl };
}

abbrev publish_header : ℕ
publish_header = make_header publish_type 0 1 0

abbrev bufs : PacketBuffers
bufs = publish_buffers 1 message topic payload

abbrev first_buffer : Bytes
first_buffer = publish_header ∷ encode (length (joined bufs.buffers))

send_publish-publish_example :
    (send_publish stream_transport allocates message 0 1 0 idle
      ≡ done (
          answered stream_transport
            (first_buffer ∷ middle_bytes 1 message ∷ int_bytes (length topic) ∷ [])
            (stream_transport.putdatas first_buffer bufs idle)))
    × (publish allocates 4 publish_header (joined bufs.buffers)
        ≡ done (some (received 4 publish_header topic message.msg_id payload)))
send_publish-publish_example =
    send_publish-publish stream_transport allocates allocates message 0 1 0 topic payload idle
      (λ k. refl) (λ k. refl) message-IsSendable (omega arith) (omega arith) (omega arith)
      (omega arith) (unfold header_qos in omega arith)

abbrev client : Credentials
client = record {
  client_id = 99 ∷ [];
  username = some (117 ∷ []);
  password = some (record { len = 1; chars = some (112 ∷ []) });
  keep_alive_interval = 60;
}

abbrev connect_body : Bytes
connect_body = connect_bytes 4 client (some (112 ∷ []))

abbrev connect_sent : Sent Stream
connect_sent =
    let buf = make_header connect_type 0 0 0 ∷ encode (length connect_body) in
    conclude stream_transport buf
      (stream_transport.putdatas buf (one_buffer connect_body true) idle)

send_connect-connect_bytes_example :
    send_connect stream_transport allocates 4 client idle
    ≡ done (record connect_sent { held = connect_sent.held ++ connect_body ∷ [] })
send_connect-connect_bytes_example =
    send_connect-connect_bytes stream_transport allocates 4 client (some (112 ∷ [])) idle refl refl
      (record { holds = refl; sized = refl })

abbrev topics : List Bytes
topics = topic ∷ payload ∷ []

abbrev subscribe_body : Bytes
subscribe_body = int_bytes 9 ++ topics_bytes topics (1 ∷ 2 ∷ [])

send_subscribe-topics_bytes_example :
    let buf = make_header subscribe_type 0 1 0 ∷ encode (length subscribe_body) in
    send_subscribe stream_transport allocates topics (1 ∷ 2 ∷ []) 9 0 idle
    ≡ done (
        answered stream_transport
          (buf ∷ subscribe_body ∷ [])
          (stream_transport.putdatas buf (one_buffer subscribe_body true) idle))
send_subscribe-topics_bytes_example =
    send_subscribe-topics_bytes stream_transport allocates topics (1 ∷ 2 ∷ []) 9 0 idle refl refl
      (omega arith)

abbrev puback_buffer : Bytes
puback_buffer = make_header puback_type 0 0 0 ∷ encode 2

send_puback-ack_example :
    (send_puback stream_transport allocates 300 idle
      ≡ done (
          answered stream_transport
            (puback_buffer ∷ int_bytes 300 ∷ [])
            (stream_transport.putdatas puback_buffer (one_buffer (int_bytes 300) true) idle)))
    × (ack allocates 0 4 (make_header puback_type 0 0 0) (int_bytes 300)
        ≡ done (
            some
              (record { header = make_header puback_type 0 0 0; msg_id = 300; mqtt_version = 4 })))
send_puback-ack_example =
    send_puback-ack stream_transport allocates allocates 300 0 4 idle refl refl refl (omega arith)
