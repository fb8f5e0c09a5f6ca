-- ===== src/Protocol/Start.antt =====
-- src/MQTTProtocol.c: `MQTTProtocol_startPublish` with its sending, and `MQTTProtocol_storeQoS0` for
-- a write with quality of service 0 that was interrupted.
-- `pending_write` of utils/TypeDefine.h; `publication` is the address that `p` holds.
use mqtt_client.Entries.{drop_entry, find_entry, set_entry}
use mqtt_client.Packet.{Publish}
use mqtt_client.Packet.Send.{Sent, send_publish}
use mqtt_client.Prelude.{
  Bool, List, Option, [], if◌then◌else◌, none, some, ℕ, ◌&&◌, ◌++◌, ◌==◌, ◌∷◌,
}
use mqtt_client.Prelude.Int.{◌==ℤ◌}
use mqtt_client.Prelude.Predicates.{Bytes}
use mqtt_client.Prelude.Run.{Run, done, fault, ◌>>=◌}
use mqtt_client.Protocol.{Client, Message, Publication, address_of, store_publication}
use mqtt_client.Protocol.Outgoing.{Answers, start_message}
use mqtt_client.Transport.{Transport, tcpsocket_interrupted}

pub record PendingPublication : Type 0 where
  pub socket : ℕ
  pub publication : ℕ

-- The answers for `MQTTProtocol_storeQoS0`.
pub record StoreAnswers : Type 0 where
  pub write : Bool
  pub publication : Option ℕ
  pub publication_listed : Bool
  pub write_listed : Bool

-- What is behind a pointer; behind `NULL` nothing is read.
abbrev pub bytes_at : Option Bytes → Bytes
bytes_at none = []
bytes_at (some bytes) = bytes

-- What is left in `publish`, the publications, `state.pending_writes` and the state of the socket
-- buffers; `update` is `SocketBuffer_updateWrite` on it. A publication whose write could not be
-- listed is freed, and no longer one of the allocated ones.
module _ {S : Type 0} (update : ℕ → Bytes → Bytes → S → S) where
  store_pending :
      StoreAnswers
      → (sock : ℕ) → (left : Publish) → List Publication
      → List PendingPublication
      → S
      → Option ℕ
      → Run (Publish × List Publication × List PendingPublication × S)
  store_pending mem sock left pubs writes s none = done (left, pubs, writes, s)
  store_pending mem sock left pubs writes s (some a) = elim (find_entry address_of a pubs) [
    | none ↦ fault
    | some p ↦
        if mem.write_listed
        then done (
          left,
          pubs,
          writes ++ record { socket = sock; publication = a } ∷ [],
          update sock (bytes_at p.topic) (bytes_at p.payload) s,
        )
        else done (left, drop_entry address_of a pubs, writes, s)
  ]

  unfoldable pub store_qos0 :
      StoreAnswers
      → (sock : ℕ) → Publish
      → List Publication
      → List PendingPublication
      → S
      → Run (Publish × List Publication × List PendingPublication × S)
  unfolding store_publication store_pending
  store_qos0 mem sock pack pubs writes s =
      if mem.write
      then (store_publication mem.publication mem.publication_listed pack pubs
          >>= λ (p, left, pubs'). store_pending mem sock left pubs' writes s p)
      else done (pack, pubs, writes, s)

  module _ (t : Transport S) where
    -- What is sent, the packet afterwards, and the state.
    unfoldable pub start_publish_common :
        (sending : ℕ → Bool)
        → StoreAnswers
        → (sock : ℕ) → Publish
        → (qos retained : ℕ) → List Publication
        → List PendingPublication
        → S
        → Run (Sent S × Publish × List Publication × List PendingPublication)
    unfolding store_qos0
    start_publish_common sending mem sock pack qos retained pubs writes s =
        send_publish t sending pack 0 qos retained s >>= λ sent.
        if (qos == 0) && (sent.rc ==ℤ tcpsocket_interrupted)
        then (store_qos0 mem sock (record pack { mask = sent.mask }) pubs writes sent.state
            >>= λ (left, pubs', writes', s').
                done (record sent { state = s' }, left, pubs', writes'))
        else done (sent, record pack { mask = sent.mask }, pubs, writes)

-- The mask of the packet that was sent goes to the message's publication.
unfoldable pub keep_mask : Message → (mask : Bytes) → List Publication → Run (List Publication)
keep_mask m mask pubs = elim m.publish [
  | none ↦ fault
  | some a ↦ elim (find_entry address_of a pubs) [
    | none ↦ fault
    | some p ↦ done (set_entry address_of a (record p { mask = mask }) pubs)
  ]
]

-- What `MQTTProtocol_startPublish` leaves: the result, the message of `*mm`, the client, and the two
-- lists of the module.
pub record Started (S : Type 0) : Type 0 where
  pub sent : Sent S
  pub mm : Option Message
  pub client : Client
  pub publications : List Publication
  pub writes : List PendingPublication

module _ {S : Type 0} (update : ℕ → Bytes → Bytes → S → S) (t : Transport S) where
  unfoldable pub start_publish :
      Answers
      → (sending : ℕ → Bool) → StoreAnswers
      → (stale : Message) → Publish
      → (qos retained : ℕ) → (mm : Option Message) → Client
      → List Publication
      → List PendingPublication
      → S
      → Run (Started S)
  unfolding start_message start_publish_common keep_mask
  start_publish mem sending storing stale pack qos retained mm client pubs writes s =
      if qos == 0
      then (start_publish_common update t sending storing client.socket pack qos retained pubs
            writes s
          >>= λ (sent, left, pubs', writes'). done (record {
            sent = sent;
            mm = mm;
            client = client;
            publications = pubs';
            writes = writes';
          }))
      else (start_message mem stale pack mm qos retained client pubs
          >>= λ (m, copy, left, client', pubs1).
              start_publish_common update t sending storing client.socket copy qos retained pubs1
                writes s
              >>= λ (sent, copy', pubs2, writes'). keep_mask m copy'.mask pubs2 >>= λ pubs3.
                  done (record {
                    sent = sent;
                    mm = some m;
                    client = client';
                    publications = pubs3;
                    writes = writes';
                  }))
