-- ===== src/Protocol/Qos2.antt =====
-- A publication of the server with quality of service 2, new or sent again.
use mathlib.Core.Path.{subst}
use mqtt_client.Entries.{Unique, append-Unique, find-append, find-set, find_entry, set_entry}
use mqtt_client.Packet.{Publish, header_qos, header_retain}
use mqtt_client.Prelude.{
  Bool, Bool-cases, List, Option, [], arith, false, if◌then◌else◌, inl, inr, none, refl, some, true,
  ℕ, ◌++◌, ◌+◌, ◌==◌, ◌∙◌, ◌∷◌, ◌≡◌, ◌≢◌,
}
use mqtt_client.Prelude.Predicates.{Bytes}
use mqtt_client.Prelude.Run.{Ends, Ends-inv, done, ends}
use mqtt_client.Protocol.{
  Client, Message, Publication, address_of, block_of, msgid_of, pubrec_type, pubrel_type, queue_ack,
  remove_publication, store_publication,
}
use mqtt_client.Protocol.Incoming.{InboundAnswers, place_inbound, receive_qos2}
use mqtt_client.Protocol.Outgoing.{own_payload}
use mqtt_client.Protocol.Placing.{old_publish, place_at_lem, placed, placed-found, placed-other}
use mqtt_client.Protocol.References.{
  Covers, points_to, released, released-zero, remove_publication-released,
}
use mqtt_client.Transport.{tcpsocket_complete}
use mqtt_client.Wire.{copy_from}

module _ (mem : InboundAnswers) (stale : Message) (pack : Publish) (busy : Bool) (client : Client)
    (pubs : List Publication) {block a : ℕ} {topic body : Bytes}
    (block_given : mem.message ≡ some block) (publication_given : mem.publication ≡ some a)
    (publication_listed : mem.publication_listed ≡ true)
    (message_listed : mem.message_listed ≡ true) (payload_given : mem.payload ≡ true)
    (request_given : mem.request ≡ true) (request_listed : mem.request_listed ≡ true)
    (has_topic : pack.topic ≡ some topic) (copied : copy_from pack.payload ≡ done body)
    (unique_publications : Unique address_of pubs)
    (unique_messages : Unique block_of client.inbound_msgs)
    (address_unused : find_entry address_of a pubs ≡ none)
    (block_unused : find_entry block_of block client.inbound_msgs ≡ none)
    (covered : (b : ℕ)
      → Covers
          (find_entry address_of b pubs)
          (points_to b (old_publish (find_entry msgid_of pack.msg_id client.inbound_msgs)))) where
  abbrev old : Option Message
  old = find_entry msgid_of pack.msg_id client.inbound_msgs

  abbrev stored_publication : Publication
  stored_publication = record {
    address = a;
    topic = pack.topic;
    topiclen = pack.topiclen;
    payload = pack.payload.chars;
    payloadlen = pack.payload.len;
    refcount = 1;
    mask = pack.mask;
  }

  abbrev new_message : Message
  new_message = record stale {
    block = block;
    qos = header_qos pack.header;
    retain = header_retain pack.header;
    msgid = pack.msg_id;
    mqtt_version = pack.mqtt_version;
    publish = some a;
    next_message_type = pubrel_type;
  }

  added :
      (b : ℕ)
      → find_entry address_of b (pubs ++ stored_publication ∷ [])
        ≡ (if b == a then some stored_publication else find_entry address_of b pubs)
  added b = find-append address_of b pubs stored_publication ∙ elim (Bool-cases (b == a)) [
    | inl here ↦ let same : b ≡ a = ground arith in rw (here, same, address_unused) (ground arith)
    | inr other ↦ ground arith
  ]

  not_old : points_to a (old_publish old) ≡ 0
  unfolding Covers
  not_old = rw address_unused at (covered a)

  covered' :
      (b : ℕ)
      → Covers
          (find_entry address_of b (pubs ++ stored_publication ∷ []))
          (points_to b (old_publish old) + 0)
  unfolding Covers
  covered' b = rw (added b) (elim (Bool-cases (b == a)) [
    | inl here ↦
        let same : b ≡ a = ground arith in
        let none_old : points_to b (old_publish old) ≡ 0 = rw same not_old in
        rw (here, none_old) (omega arith, omega arith)
    | inr other ↦
        rw other
          (subst (λ (n : ℕ). Covers (find_entry address_of b pubs) n) (omega arith) (covered b))
  ])

  left_over : Publish
  left_over = record pack { topic = none; payload = record pack.payload { chars = none } }

  stored :
      store_publication mem.publication mem.publication_listed pack pubs
      ≡ done (some a, left_over, pubs ++ stored_publication ∷ [])
  unfolding store_publication left_over
  stored = rw (publication_given, has_topic, publication_listed) refl

  abbrev msgs' : List Message
  msgs' = placed new_message client.inbound_msgs old

  in_place :
      (pubs' : List Publication)
      → remove_publication (old_publish old) (pubs ++ stored_publication ∷ []) ≡ done pubs'
      → place_inbound mem.message_listed new_message client.inbound_msgs
          (pubs ++ stored_publication ∷ [])
        ≡ done (msgs', pubs')
  unfolding place_inbound
  in_place pubs' ran =
      rw
        (
          message_listed,
          place_at_lem new_message client.inbound_msgs (pubs ++ stored_publication ∷ []) old
              unique_messages block_unused refl,
          ran,
        )
        refl

  abbrev own_publication : Publication
  own_publication = record stored_publication { payload = some body }

  module _ (pubs2 : List Publication)
      (mine : find_entry address_of a pubs2 ≡ some stored_publication) where
    owned : own_payload a pubs2 ≡ done (set_entry address_of a own_publication pubs2)
    unfolding own_payload
    owned = rw (own_payload, mine, copied) refl

    own-found :
        find_entry address_of a (set_entry address_of a own_publication pubs2)
        ≡ some own_publication
    own-found = find-set address_of a a own_publication pubs2 refl ∙ rw mine (ground arith)

    own-other :
        (b : ℕ)
        → b ≢ a
        → find_entry address_of b (set_entry address_of a own_publication pubs2)
          ≡ find_entry address_of b pubs2
    own-other b other =
        let no : (b == a) ≡ false = ground arith in
        find-set address_of a b own_publication pubs2 refl ∙ rw no refl

    abbrev client_after : Client
    client_after = record client {
      inbound_msgs = msgs';
      outbound_queue =
          if busy
          then client.outbound_queue
            ++ record { message_id = pack.msg_id; ack_type = pubrec_type } ∷ []
          else client.outbound_queue;
    }

    queued :
        queue_ack mem.request mem.request_listed
          (record client { inbound_msgs = msgs' })
          pubrec_type
          pack.msg_id
        ≡ (
          tcpsocket_complete,
          record client {
            inbound_msgs = msgs';
            outbound_queue =
                client.outbound_queue
                ++ record { message_id = pack.msg_id; ack_type = pubrec_type } ∷ [];
          },
        )
    unfolding queue_ack
    queued = rw (request_given, request_listed) refl

    receive_qos2_lem :
        remove_publication (old_publish old) (pubs ++ stored_publication ∷ []) ≡ done pubs2
        → receive_qos2 mem stale pack busy client pubs
          ≡ done (tcpsocket_complete, client_after, set_entry address_of a own_publication pubs2)
    unfolding receive_qos2
    receive_qos2_lem ran =
        rw (block_given, stored, in_place pubs2 ran, payload_given, owned)
          (elim (Bool-cases busy) [
            | inl pending ↦ rw (pending, queued) refl
            | inr free ↦ rw free refl
          ])

  -- A message with quality of service 2 that comes in, for the first time or again, where memory is
  -- given, the payload can be read, the new blocks are not in use and the publication of a message
  -- with its identifier has a reference: the message is kept under its identifier, in the place of
  -- one that was there, and its publication has a payload of its own; nothing goes to the
  -- application yet. The publication of a message that is replaced loses a reference, other
  -- messages and publications stay, and where the socket has pending writes a PUBREC is queued.
  pub receive_qos2-placed :
      (id b : ℕ)
      → id ≢ pack.msg_id
      → b ≢ a
      → Ends
          (λ (rc, client', pubs').
            (rc ≡ tcpsocket_complete)
            × (client' ≡ record client {
              inbound_msgs = client'.inbound_msgs;
              outbound_queue =
                  if busy
                  then client.outbound_queue
                    ++ record { message_id = pack.msg_id; ack_type = pubrec_type } ∷ []
                  else client.outbound_queue;
            })
            × (client'.inbound_msgs ≡ placed new_message client.inbound_msgs old)
            × (find_entry msgid_of pack.msg_id client'.inbound_msgs ≡ some new_message)
            × (find_entry msgid_of id client'.inbound_msgs
                ≡ find_entry msgid_of id client.inbound_msgs)
            × (find_entry address_of a pubs'
                ≡ some (record stored_publication { payload = some body }))
            × (find_entry address_of b pubs'
                ≡ released (points_to b (old_publish old)) (find_entry address_of b pubs)))
          (receive_qos2 mem stale pack busy client pubs)
  receive_qos2-placed id b other_id other =
      let (pubs2, ran, (u2, found)) = Ends-inv (
        remove_publication-released (old_publish old) (λ _. 0) (pubs ++ stored_publication ∷ [])
          (append-Unique address_of pubs stored_publication unique_publications address_unused)
          covered') in
      let yes : (a == a) ≡ true = ground arith in
      let mine : find_entry address_of a pubs2 ≡ some stored_publication =
        found a
        ∙ rw not_old (
            released-zero (find_entry address_of a (pubs ++ stored_publication ∷ []))
            ∙ added a
            ∙ rw yes refl) in
      let theirs : find_entry address_of b pubs2
          ≡ released (points_to b (old_publish old)) (find_entry address_of b pubs) =
        found b ∙ rw (added b) (ground arith) in
      rw (receive_qos2_lem pubs2 mine ran) (
        ends (
          refl,
          refl,
          refl,
          placed-found new_message client.inbound_msgs old refl,
          placed-other new_message client.inbound_msgs id old other_id,
          own-found pubs2 mine,
          own-other pubs2 mine b other ∙ theirs,
        ))
