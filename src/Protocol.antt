-- ===== src/Protocol.antt =====
-- src/MQTTProtocol.c: publications and the messages in flight that refer to them. A publication is
-- a block of its own, with its address; the list `state.publications` holds all that are allocated.
-- A pointer to one that was released is followed as a fault. Topics and payloads are kept by value,
-- so that their own blocks are not followed, and neither are the storage sizes, the clock and the
-- log.
pub mod InFlight
pub mod Address
pub mod Incoming
pub mod Outgoing
pub mod Placing
pub mod Qos2
pub mod References
mod Runs
pub mod Start
use mqtt_client.Entries.{drop_entry, find_entry, set_entry}
use mqtt_client.LinkedList.{decrement}
use mqtt_client.Packet.{Ack, Publish}
use mqtt_client.Prelude.{
  Bool, List, Option, [], false, if◌then◌else◌, none, some, true, ℕ, ◌++◌, ◌==◌, ◌∷◌,
}
use mqtt_client.Prelude.Int.{pos, ℤ}
use mqtt_client.Prelude.Predicates.{Bytes}
use mqtt_client.Prelude.Run.{Run, done, fault, ◌>>=◌}
use mqtt_client.Properties.{Properties, paho_memory_error}
use mqtt_client.Transport.{tcpsocket_complete}

-- `Publications`, with the address of the block.
pub record Publication : Type 0 where
  pub address : ℕ
  pub topic : Option Bytes
  pub topiclen : ℕ
  pub payload : Option Bytes
  pub payloadlen : ℕ
  pub refcount : ℕ
  pub mask : Bytes

-- `Messages`, with the address of the block; `publish` is the pointer, `none` for `NULL`.
pub record Message : Type 0 where
  pub block : ℕ
  pub qos : ℕ
  pub retain : ℕ
  pub msgid : ℕ
  pub mqtt_version : ℕ
  pub properties : Properties
  pub publish : Option ℕ
  pub next_message_type : ℕ

-- `MQTTClient_message` and `qEntry`: what waits for the application.
pub record ClientMessage : Type 0 where
  pub payloadlen : ℕ
  pub payload : Option Bytes
  pub qos : ℕ
  pub retained : ℕ
  pub dup : ℕ
  pub msgid : ℕ
  pub properties : Properties

pub record QEntry : Type 0 where
  pub msg : ClientMessage
  pub topic_name : Bytes
  pub topic_len : ℕ

pub record AckRequest : Type 0 where
  pub message_id : ℕ
  pub ack_type : ℕ

-- The members of `Clients` that are used.
pub record Client : Type 0 where
  pub socket : ℕ
  pub outbound_msgs : List Message
  pub inbound_msgs : List Message
  pub message_queue : List QEntry
  pub outbound_queue : List AckRequest

-- `bstate->clients` and `state.publications`.
pub record Protocol : Type 0 where
  pub clients : List Client
  pub publications : List Publication

abbrev pub pubrec_type : ℕ
pubrec_type = 5

abbrev pub pubrel_type : ℕ
pubrel_type = 6

abbrev pub address_of : Publication → ℕ
address_of p = p.address

abbrev pub block_of : Message → ℕ
block_of m = m.block

-- `messageIDCompare`.
abbrev pub msgid_of : Message → ℕ
msgid_of m = m.msgid

-- `MQTTProperties_socketCompare`.
abbrev pub client_socket : Client → ℕ
client_socket c = c.socket

-- The new publication's address, what is left in `publish`, and the list. `appended`: whether
-- `ListAppend` got its element.
unfoldable pub store_publication :
    (allocated : Option ℕ) (appended : Bool)
    → Publish
    → List Publication
    → Run (Option ℕ × Publish × List Publication)
store_publication none appended pack pubs = done (none, pack, pubs)
store_publication (some a) appended pack pubs = elim pack.topic [
  | none ↦ fault
  | some _ ↦
      let left = record pack { topic = none; payload = record pack.payload { chars = none } } in
      if appended
      then done (
        some a,
        left,
        pubs
            ++ record {
              address = a;
              topic = pack.topic;
              topiclen = pack.topiclen;
              payload = pack.payload.chars;
              payloadlen = pack.payload.len;
              refcount = 1;
              mask = pack.mask;
            }
              ∷ [],
      )
      else done (none, left, pubs)
]

-- `refcount` is an `int`, as its pattern of 32 bits.
unfoldable pub remove_publication : Option ℕ → List Publication → Run (List Publication)
remove_publication none pubs = done pubs
remove_publication (some a) pubs = elim (find_entry address_of a pubs) [
  | none ↦ fault
  | some p ↦
      if decrement p.refcount == 0
      then done (drop_entry address_of a pubs)
      else done (set_entry address_of a (record p { refcount = decrement p.refcount }) pubs)
]

-- `MQTTProtocol_emptyMessageList`: the publications afterwards; the list is empty then.
unfoldable pub empty_message_list : List Message → List Publication → Run (List Publication)
unfolding remove_publication
empty_message_list [] pubs = done pubs
empty_message_list (m ∷ msgs) pubs = remove_publication m.publish pubs >>= empty_message_list msgs

-- `MQTTProtocol_queueAck`.
unfoldable pub queue_ack : (allocated appended : Bool) → Client → (ack_type msg_id : ℕ) → ℤ × Client
queue_ack false appended client ack_type msg_id = (paho_memory_error, client)
queue_ack true appended client ack_type msg_id = (
  pos 0,
  if appended
      then record client {
        outbound_queue =
            client.outbound_queue ++ record { message_id = msg_id; ack_type = ack_type } ∷ [];
      }
      else client,
)

-- The client of a socket; the code follows the pointer that it finds without a test.
unfoldable pub client_at : ℕ → Protocol → Run Client
client_at sock st = elim (find_entry client_socket sock st.clients) [
  | none ↦ fault
  | some client ↦ done client
]

unfoldable pub put_client : Client → Protocol → Protocol
put_client client st = record st {
  clients = set_entry client_socket client.socket client st.clients;
}

-- The message that is acknowledged, if it was found, goes with its reference to the publication.
unfoldable pub acknowledge : Client → Protocol → Option Message → Run (ℤ × Protocol)
unfolding put_client remove_publication
acknowledge client st none = done (tcpsocket_complete, st)
acknowledge client st (some m) =
    if m.qos == 1
    then (remove_publication m.publish st.publications >>= λ pubs. done (
      tcpsocket_complete,
      put_client
          (record client { outbound_msgs = drop_entry block_of m.block client.outbound_msgs })
          (record st { publications = pubs }),
    ))
    else done (tcpsocket_complete, st)

unfoldable pub handle_pubacks : Ack → (sock : ℕ) → Protocol → Run (ℤ × Protocol)
unfolding client_at acknowledge
handle_pubacks puback sock st = client_at sock st >>= λ client.
    acknowledge client st (find_entry msgid_of puback.msg_id client.outbound_msgs)
