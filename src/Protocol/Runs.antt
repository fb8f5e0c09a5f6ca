-- ===== src/Protocol/Runs.antt =====
-- The handlers of the protocol at small states.
use mqtt_client.Entries.{find_entry, set_entry}
use mqtt_client.Packet.{Ack, Publish, header_qos, header_retain, no_mask}
use mqtt_client.Prelude.{[], arith, false, none, refl, some, true, ℕ, ◌∷◌, ◌≡◌}
use mqtt_client.Prelude.Int.{pos, ℤ}
use mqtt_client.Prelude.Predicates.{Bytes}
use mqtt_client.Prelude.Run.{Ends, done, fault}
use mqtt_client.Properties.{no_properties}
use mqtt_client.Protocol.{
  Client, Message, Protocol, Publication, address_of, empty_message_list, handle_pubacks, msgid_of,
  pubrel_type, put_client, store_publication,
}
use mqtt_client.Protocol.Address.{
  address_at, address_port, address_port_lem, first_index, last_char, last_index, port_colon,
  strip_bracket,
}
use mqtt_client.Protocol.InFlight.{start_message-handle_pubacks}
use mqtt_client.Protocol.Incoming.{InboundAnswers, receive_qos2}
use mqtt_client.Protocol.Outgoing.{Answers, start_message}
use mqtt_client.Protocol.Placing.{old_publish, placed}
use mqtt_client.Protocol.Qos2.{receive_qos2-placed}
use mqtt_client.Protocol.References.{
  Covers, empty_message_list-released, points_to, references, released,
}
use mqtt_client.Protocol.Start.{StoreAnswers, store_qos0}
use mqtt_client.Transport.{tcpsocket_complete}
use mqtt_client.Wire.{copy_from}

abbrev roomy : Answers
roomy = record {
  message = some 7;
  publication = some 8;
  payload = true;
  publication_listed = true;
  message_listed = true;
  entries = λ i j. true;
}

abbrev stale_message : Message
stale_message = record {
  block = 0;
  qos = 0;
  retain = 0;
  msgid = 0;
  mqtt_version = 0;
  properties = no_properties;
  publish = none;
  next_message_type = 0;
}

-- Identifier 3, topic "a", payload "xy".
abbrev packet : ℕ → Publish
packet header = record {
  header = header;
  topic = some (97 ∷ []);
  topiclen = 1;
  msg_id = 3;
  payload = record { len = 2; chars = some (120 ∷ 121 ∷ []) };
  mqtt_version = 4;
  properties = no_properties;
  mask = no_mask;
}

abbrev idle_client : Client
idle_client = record {
  socket = 5;
  outbound_msgs = [];
  inbound_msgs = [];
  message_queue = [];
  outbound_queue = [];
}

abbrev idle_state : Protocol
idle_state = record { clients = idle_client ∷ []; publications = [] }

abbrev puback_3 : Ack
puback_3 = record { header = 64; msg_id = 3; mqtt_version = 4 }

start_message-handle_pubacks_example :
    Ends
      (λ (m, sending, left, client', pubs').
        (find_entry msgid_of 3 client'.outbound_msgs ≡ some m)
        × (sending ≡ record (packet 50) { properties = m.properties })
        × (handle_pubacks puback_3 5
              (put_client client' (record idle_state { publications = pubs' }))
            ≡ done (tcpsocket_complete, idle_state)))
      (start_message roomy stale_message (packet 50) none 1 0 idle_client [])
unfolding find_entry
start_message-handle_pubacks_example =
    start_message-handle_pubacks roomy stale_message (packet 50) 1 0 idle_state 5 idle_client refl
      refl refl refl refl refl refl refl refl refl puback_3 refl

-- A publication with two references, one of them by the message.
abbrev shared : Publication
shared = record {
  address = 8;
  topic = some (97 ∷ []);
  topiclen = 1;
  payload = some (120 ∷ []);
  payloadlen = 1;
  refcount = 2;
  mask = no_mask;
}

abbrev sharer : Message
sharer = record stale_message { block = 6; msgid = 3; qos = 2; publish = some 8 }

references-Covers :
    (b : ℕ) → Covers (find_entry address_of b (shared ∷ [])) (references b (sharer ∷ []))
unfolding find_entry Covers references points_to
references-Covers b = ground arith

empty_message_list-released_example :
    Ends
      (λ pubs'. find_entry address_of 8 pubs' ≡ some (record shared { refcount = 1 }))
      (empty_message_list (sharer ∷ []) (shared ∷ []))
unfolding find_entry references released points_to
empty_message_list-released_example =
    empty_message_list-released (sharer ∷ []) (shared ∷ []) 8 (refl, tt) references-Covers

abbrev inbound : InboundAnswers
inbound = record {
  message = some 7;
  publication = some 9;
  publication_listed = true;
  message_listed = true;
  payload = true;
  request = true;
  request_listed = true;
}

abbrev waiting_client : Client
waiting_client = record idle_client { inbound_msgs = sharer ∷ [] }

points_to-Covers :
    (b : ℕ)
    → Covers
        (find_entry address_of b (shared ∷ []))
        (points_to b (old_publish (find_entry msgid_of 3 (sharer ∷ []))))
unfolding find_entry Covers points_to
points_to-Covers b = ground arith

-- The message comes in again.
receive_qos2-placed_example :
    Ends
      (λ (rc, client', pubs').
        (rc ≡ tcpsocket_complete)
        × (client'
            ≡ record waiting_client { inbound_msgs = client'.inbound_msgs; outbound_queue = [] })
        × (client'.inbound_msgs
            ≡ record stale_message {
              block = 7;
              qos = 2;
              msgid = 3;
              mqtt_version = 4;
              publish = some 9;
              next_message_type = pubrel_type;
            }
              ∷ [])
        × (find_entry msgid_of 3 client'.inbound_msgs
            ≡ some (record stale_message {
              block = 7;
              qos = 2;
              msgid = 3;
              mqtt_version = 4;
              publish = some 9;
              next_message_type = pubrel_type;
            }))
        × (find_entry msgid_of 4 client'.inbound_msgs ≡ none)
        × (find_entry address_of 9 pubs'
            ≡ some (record shared {
              address = 9;
              payload = some (120 ∷ 121 ∷ []);
              payloadlen = 2;
              refcount = 1;
            }))
        × (find_entry address_of 8 pubs' ≡ some (record shared { refcount = 1 })))
      (receive_qos2 inbound stale_message (packet 52) false waiting_client (shared ∷ []))
unfolding find_entry set_entry placed points_to released copy_from header_qos header_retain
receive_qos2-placed_example =
    receive_qos2-placed inbound stale_message (packet 52) false waiting_client (shared ∷ []) refl
      refl refl refl refl refl refl refl refl (refl, tt) (refl, tt) refl refl points_to-Covers 4 8
      (omega arith) (omega arith)

-- "[a:b]:7/t" as an address; the number is what a function that knows it says.
abbrev number : Bytes → ℤ
number text = pos 7

address_port_lem_example :
    address_port number (91 ∷ 97 ∷ 58 ∷ 98 ∷ 93 ∷ 58 ∷ 55 ∷ 47 ∷ 116 ∷ []) (pos 1883)
    ≡ done (4, pos 7, some 7)
unfolding first_index last_char last_index
address_port_lem_example =
    address_port_lem number (pos 1883) 91 (97 ∷ 58 ∷ 98 ∷ 93 ∷ []) (55 ∷ 47 ∷ 116 ∷ []) refl refl

-- Without a host the byte in front of the string is read.
no_host : address_port number (58 ∷ 55 ∷ []) (pos 1883) ≡ fault
unfolding address_port address_at port_colon last_index strip_bracket
no_host = refl

abbrev roomy_store : StoreAnswers
roomy_store = record {
  write = true;
  publication = some 8;
  publication_listed = true;
  write_listed = true;
}

-- A write with quality of service 0 that was interrupted: the socket buffers get the stored copies.
stored_write :
    store_qos0 {S = ℕ × Bytes × Bytes}
      (λ s topic payload _. (s, topic, payload))
      roomy_store
      5
      (packet 48)
      []
      []
      (0, [], [])
    ≡ done (
      record (packet 48) { topic = none; payload = record { len = 2; chars = none } },
      record shared { payload = some (120 ∷ 121 ∷ []); payloadlen = 2; refcount = 1 } ∷ [],
      record { socket = 5; publication = 8 } ∷ [],
      (5, 97 ∷ [], 120 ∷ 121 ∷ []),
    )
unfolding store_qos0 store_publication find_entry
stored_write = refl
