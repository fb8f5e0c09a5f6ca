-- ===== src/Packet/Factory/Runs.antt =====
-- Examples of the packet factory on a transport of test data.
use mqtt_client.Packet.{header_qos, header_type}
use mqtt_client.Packet.Factory.{Memory, Packet, builder_for, factory, publish_packet}
use mqtt_client.Packet.Factory.Outcomes.{builder_for-fault_iff, factory-publish}
use mqtt_client.Packet.Receive.{publish_bytes, received}
use mqtt_client.Prelude.{Bool, [], arith, refl, some, true, ℕ, ◌<◌, ◌↔◌, ◌∷◌, ◌≡◌, ◌≤◌, ◌⊎◌}
use mqtt_client.Prelude.Predicates.{Bytes}
use mqtt_client.Prelude.Run.{done, fault}
use mqtt_client.RemainingLength.{encode}
use mqtt_client.RemainingLength.Encode.{encode-groups, groups}
use mqtt_client.Transport.{tcpsocket_complete}
use mqtt_client.Transport.Delivery.{Delivers}
use mqtt_client.Transport.Framed.{Framed}
use mqtt_client.Transport.Stream.{incoming_stream, read_to, stream_transport}
use mqtt_client.Wire.Writing.{int_bytes, utf_bytes}

abbrev allocates : ℕ → Bool
allocates k = true

abbrev memory : Memory
memory = record { mem = allocates; stale_id = 0; garbage = true }

-- A PUBLISH packet of quality of service 1 with topic "ab", identifier 7 and payload 5 6 7.
abbrev topic : Bytes
topic = 97 ∷ 98 ∷ []

abbrev payload : Bytes
payload = 5 ∷ 6 ∷ 7 ∷ []

abbrev publish_data : Bytes
publish_data = 0 ∷ 2 ∷ 97 ∷ 98 ∷ 0 ∷ 7 ∷ 5 ∷ 6 ∷ 7 ∷ []

data_eq : publish_bytes (header_qos 50) topic 7 payload ≡ publish_data
unfolding publish_bytes header_qos utf_bytes int_bytes
data_eq = refl

encode_9 : encode 9 ≡ 9 ∷ []
unfolding groups
encode_9 = encode-groups 3 9 (omega arith)

Delivers-head :
    Delivers stream_transport
      (incoming_stream (50 ∷ 9 ∷ publish_data))
      (50 ∷ 9 ∷ [])
      (read_to publish_data 2)
Delivers-head = (read_to (9 ∷ publish_data) 1, refl, (read_to publish_data 2, refl, refl))

factory-publish_example :
    factory stream_transport memory 4 (incoming_stream (50 ∷ 9 ∷ publish_data))
    ≡ done
        (tcpsocket_complete, some (publish_packet (received 4 50 topic 7 payload)), read_to [] 11)
factory-publish_example =
    factory-publish stream_transport memory 4 50 7 topic payload []
      (incoming_stream (50 ∷ 9 ∷ publish_data)) (read_to publish_data 2) (read_to [] 11) refl refl
      (unfold header_type in refl) (omega arith) (omega arith) (rw data_eq (omega arith))
      (rw (data_eq, encode_9) Delivers-head) (rw data_eq refl)

-- Nine bytes are announced, and one is there.
abbrev announced : Framed
announced = record { read = []; unread = 50 ∷ 9 ∷ 0 ∷ [] }

builder_for-fault_iff_example :
    (builder_for 5 14 ≡ fault) ↔ ((◌≡◌ {A = ℕ} 14 13) ⊎ ((5 ≤ 5) × (13 < 14)))
builder_for-fault_iff_example = builder_for-fault_iff 5 14 (omega arith)
