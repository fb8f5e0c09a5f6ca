-- ===== src/Protocol/Incoming.antt =====
-- src/MQTTProtocol.c: publications of the server, `Protocol_processPublication` and
-- `MQTTProtocol_handlePublishes`. The packet itself is freed at the end and not followed further.
-- What the calls of `malloc` answer for the entry of the application's queue: for the entry, its
-- message, the copy of the payload, and the element of the list.
use mqtt_client.Entries.{drop_entry, find_entry}
use mqtt_client.Packet.{Publish, header_dup, header_qos, header_retain, puback_type}
use mqtt_client.Packet.Send.{send_puback}
use mqtt_client.Prelude.{
  Bool, List, Option, [], if◌then◌else◌, leb, none, not, some, true, ℕ, ◌&&◌, ◌++◌, ◌==◌, ◌∷◌,
}
use mqtt_client.Prelude.Int.{ℤ}
use mqtt_client.Prelude.Predicates.{Bytes}
use mqtt_client.Prelude.Run.{Run, done, fault, ◌>>=◌}
use mqtt_client.Properties.{Properties, no_properties, paho_memory_error, properties_copy}
use mqtt_client.Protocol.{
  Client, ClientMessage, Message, Protocol, Publication, block_of, client_at, msgid_of, pubrec_type,
  pubrel_type, put_client, queue_ack, remove_publication, store_publication,
}
use mqtt_client.Protocol.Outgoing.{no_payload, own_payload}
use mqtt_client.Socket.{Sockets, socket_no_pending_writes}
use mqtt_client.Transport.{Transport, tcpsocket_complete}
use mqtt_client.Wire.{copy_from}

pub record EntryAnswers : Type 0 where
  pub entry : Bool
  pub message : Bool
  pub payload : Bool
  pub listed : Bool
  pub entries : ℕ → ℕ → Bool

unfoldable pub message_of : Publish → (payload : Option Bytes) (props : Properties) → ClientMessage
message_of pack payload props = record {
  payloadlen = pack.payload.len;
  payload = payload;
  qos = header_qos pack.header;
  retained = header_retain pack.header;
  dup = if header_qos pack.header == 2 then 0 else header_dup pack.header;
  msgid = pack.msg_id;
  properties = props;
}

-- The client afterwards.
unfoldable pub process_publication :
    EntryAnswers → Publish → Client → (allocate_payload : Bool) → Run Client
unfolding message_of
process_publication mem pack client allocate_payload =
    if mem.entry && mem.message
    then if allocate_payload && not mem.payload
      then done client
      else ((if allocate_payload
            then (copy_from pack.payload >>= λ bytes. done (some bytes))
            else done pack.payload.chars)
          >>= λ payload.
              (if leb 5 pack.mqtt_version
                then properties_copy mem.entries pack.properties
                else done no_properties)
              >>= λ props. elim pack.topic [
                | none ↦ fault
                | some topic ↦ done (
                    if mem.listed
                    then record client {
                      message_queue =
                          client.message_queue
                          ++ record {
                            msg = message_of pack payload props;
                            topic_name = topic;
                            topic_len = pack.topiclen;
                          }
                            ∷ [];
                    }
                    else client)
              ])
    else done client

-- `ListInsert` in front of the message with the block `b`.
unfoldable pub insert_message : (b : ℕ) → Message → List Message → List Message
insert_message b m [] = []
insert_message b m (x ∷ xs) =
    let rest = insert_message b m xs in if x.block == b then m ∷ x ∷ xs else x ∷ rest

-- The answers for a message with quality of service 2, those of `MQTTProtocol_queueAck` last.
pub record InboundAnswers : Type 0 where
  pub message : Option ℕ
  pub publication : Option ℕ
  pub publication_listed : Bool
  pub message_listed : Bool
  pub payload : Bool
  pub request : Bool
  pub request_listed : Bool

-- The new message takes the place of `old`, which was found with its identifier and whose
-- publication loses a reference.
unfoldable pub place_at :
    (listed : Bool)
    → Message
    → List Message
    → List Publication
    → (old : Option Message) → Run (List Message × List Publication)
unfolding insert_message remove_publication
place_at listed m msgs pubs none = done (if listed then msgs ++ m ∷ [] else msgs, pubs)
place_at listed m msgs pubs (some old) = remove_publication old.publish pubs >>= λ pubs'. done (
  drop_entry block_of old.block (if listed then insert_message old.block m msgs else msgs),
  pubs',
)

unfoldable pub place_inbound :
    (listed : Bool)
    → Message
    → List Message
    → List Publication
    → Run (List Message × List Publication)
unfolding place_at
place_inbound listed m msgs pubs = place_at listed m msgs pubs (find_entry msgid_of m.msgid msgs)

-- The branch for quality of service 2: the result, the client and the publications. `stale` is the
-- fresh message, and `busy` says whether the socket has pending writes.
unfoldable pub receive_qos2 :
    InboundAnswers
    → (stale : Message) → Publish
    → (busy : Bool) → Client
    → List Publication
    → Run (ℤ × Client × List Publication)
unfolding store_publication place_inbound own_payload no_payload queue_ack
receive_qos2 mem stale pack busy client pubs = elim mem.message [
  | none ↦ done (paho_memory_error, client, pubs)
  | some block ↦
      store_publication mem.publication mem.publication_listed pack pubs >>= λ (p, left, pubs1).
      place_inbound mem.message_listed
        (record stale {
          block = block;
          qos = header_qos pack.header;
          retain = header_retain pack.header;
          msgid = pack.msg_id;
          mqtt_version = pack.mqtt_version;
          publish = p;
          next_message_type = pubrel_type;
        })
        client.inbound_msgs pubs1
      >>= λ (msgs, pubs2).
          let client' = record client { inbound_msgs = msgs } in
          elim p [
            | none ↦ fault
            | some a ↦
                if mem.payload
                then (own_payload a pubs2 >>= λ pubs3.
                    if busy
                    then (let (rc, client'') =
                          queue_ack mem.request mem.request_listed client' pubrec_type
                            pack.msg_id in
                        done (rc, client'', pubs3))
                    else done (tcpsocket_complete, client', pubs3))
                else (no_payload a pubs2 >>= λ pubs3. done (paho_memory_error, client', pubs3))
          ]
]

-- What `MQTTProtocol_handlePublishes` leaves: its result, the two lists, the transport, and the
-- buffers that stay allocated for the socket layer.
pub record Handled (S : Type 0) : Type 0 where
  pub rc : ℤ
  pub protocol : Protocol
  pub state : S
  pub held : List Bytes

module _ {S : Type 0} (t : Transport S) where
  -- `mem` answers for the entry of the queue, `inbound` for quality of service 2 and for the request
  -- of an acknowledgement, and `sending` for `MQTTPacket_send_puback`.
  unfoldable pub handle_publishes :
      (mem : EntryAnswers) (inbound : InboundAnswers) (sending : ℕ → Bool) (stale : Message)
      → Publish
      → (sock : ℕ) → Sockets
      → Protocol
      → S
      → Run (Handled S)
  unfolding client_at put_client process_publication receive_qos2 queue_ack
  handle_publishes mem inbound sending stale pack sock sockets st s =
      client_at sock st >>= λ client.
      let busy = not (socket_no_pending_writes sock sockets) in
      if header_qos pack.header == 0
      then (process_publication mem pack client true >>= λ client'. done (record {
        rc = tcpsocket_complete;
        protocol = put_client client' st;
        state = s;
        held = [];
      }))
      else if header_qos pack.header == 1
      then (process_publication mem pack client true >>= λ client'.
          if busy
          then (let (rc, client'') =
                queue_ack inbound.request inbound.request_listed client' puback_type pack.msg_id in
              done (record { rc = rc; protocol = put_client client'' st; state = s; held = [] }))
          else (send_puback t sending pack.msg_id s >>= λ sent. done (record {
            rc = sent.rc;
            protocol = put_client client' st;
            state = sent.state;
            held = sent.held;
          })))
      else if header_qos pack.header == 2
      then (receive_qos2 inbound stale pack busy client st.publications >>= λ (rc, client', pubs).
          done (record {
            rc = rc;
            protocol = put_client client' (record st { publications = pubs });
            state = s;
            held = [];
          }))
      else done (record { rc = tcpsocket_complete; protocol = st; state = s; held = [] })
