-- ===== src/Protocol/InFlight.antt =====
-- A message in flight: what is stored when it is published, and the answer of the server.
use mathlib.Core.Path.{subst}
use mqtt_client.Entries.{
  drop-append, find-append, find-key, find-set, find_entry, set-set, set_entry,
}
use mqtt_client.Packet.{Ack, Publish}
use mqtt_client.Prelude.{
  Bool-cases, [], arith, false, if◌then◌else◌, inl, inr, leb, none, refl, some, sym, true, ℕ, ◌++◌,
  ◌==◌, ◌∙◌, ◌∷◌, ◌≡◌,
}
use mqtt_client.Prelude.Predicates.{Bytes}
use mqtt_client.Prelude.Run.{Ends, done, ends}
use mqtt_client.Properties.{Properties, properties_copy}
use mqtt_client.Protocol.{
  Client, Message, Protocol, Publication, acknowledge, address_of, block_of, client_at,
  client_socket, handle_pubacks, msgid_of, pubrec_type, put_client, remove_publication,
  store_publication,
}
use mqtt_client.Protocol.Outgoing.{
  Answers, create_message, created, fill_message, packet_of, start_message,
}
use mqtt_client.Transport.{tcpsocket_complete}

module _ (mem : Answers) (stale : Message) (pack : Publish) (qos retained : ℕ) (st : Protocol)
    (sock : ℕ) (client : Client) {block a : ℕ} {topic : Bytes} {props : Properties}
    (known : find_entry client_socket sock st.clients ≡ some client)
    (block_given : mem.message ≡ some block) (publication_given : mem.publication ≡ some a)
    (publication_listed : mem.publication_listed ≡ true)
    (message_listed : mem.message_listed ≡ true) (has_topic : pack.topic ≡ some topic)
    (copied : (if leb 5 pack.mqtt_version
        then properties_copy mem.entries pack.properties
        else done stale.properties)
      ≡ done props)
    (address_unused : find_entry address_of a st.publications ≡ none)
    (block_unused : find_entry block_of block client.outbound_msgs ≡ none)
    (id_unused : find_entry msgid_of pack.msg_id client.outbound_msgs ≡ none) where
  abbrev stored_publication : Publication
  stored_publication = record {
    address = a;
    topic = pack.topic;
    topiclen = pack.topiclen;
    payload = pack.payload.chars;
    payloadlen = pack.payload.len;
    refcount = 1;
    mask = pack.mask;
  }

  abbrev stored_message : Message
  stored_message = record {
    block = block;
    qos = qos;
    retain = retained;
    msgid = pack.msg_id;
    mqtt_version = pack.mqtt_version;
    properties = props;
    publish = some a;
    next_message_type = if qos == 2 then pubrec_type else stale.next_message_type;
  }

  abbrev left_over : Publish
  left_over = record pack { topic = none; payload = record pack.payload { chars = none } }

  filled :
      fill_message
        (record mem { message = some block })
        (record stale { block = block })
        a
        qos
        retained
        left_over
      ≡ done stored_message
  unfolding fill_message
  filled = rw copied refl

  stored :
      store_publication mem.publication mem.publication_listed pack st.publications
      ≡ done (some a, left_over, st.publications ++ stored_publication ∷ [])
  unfolding store_publication
  stored = rw (publication_given, has_topic, publication_listed) refl

  create_message_lem :
      create_message mem stale pack none qos retained false st.publications
      ≡ done (created stored_message, left_over, st.publications ++ stored_publication ∷ [])
  unfolding create_message
  create_message_lem = rw (block_given, stored, filled) refl

  start_message_lem :
      start_message mem stale pack none qos retained client st.publications
      ≡ done (
        stored_message,
        record pack { properties = props },
        left_over,
        record client { outbound_msgs = client.outbound_msgs ++ stored_message ∷ [] },
        st.publications ++ stored_publication ∷ [],
      )
  unfolding start_message packet_of
  start_message_lem =
      let added : find_entry address_of a (st.publications ++ stored_publication ∷ [])
          ≡ some stored_publication =
        find-append address_of a st.publications stored_publication
        ∙ rw address_unused (ground arith) in
      rw (create_message_lem, added, message_listed) refl

  removed :
      remove_publication (some a) (st.publications ++ stored_publication ∷ [])
      ≡ done st.publications
  unfolding remove_publication
  removed =
      let added : find_entry address_of a (st.publications ++ stored_publication ∷ [])
          ≡ some stored_publication =
        find-append address_of a st.publications stored_publication
        ∙ rw address_unused (ground arith) in
      rw
        (
          remove_publication,
          added,
          drop-append address_of a st.publications stored_publication refl address_unused,
        )
        refl

  abbrev with_message : Client
  with_message = record client { outbound_msgs = client.outbound_msgs ++ stored_message ∷ [] }

  abbrev in_flight : Protocol
  in_flight =
      put_client with_message
        (record st { publications = st.publications ++ stored_publication ∷ [] })

  same_socket : client.socket ≡ sock
  same_socket = find-key client_socket sock st.clients client known

  acknowledged :
      (puback : Ack)
      → puback.msg_id ≡ pack.msg_id
      → handle_pubacks puback sock in_flight
        ≡ done (tcpsocket_complete, if qos == 1 then st else in_flight)
  unfolding handle_pubacks client_at put_client acknowledge
  acknowledged puback same =
      let known' : find_entry client_socket client.socket st.clients ≡ some client =
        subst (λ (n : ℕ). find_entry client_socket n st.clients ≡ some client) (sym same_socket)
          known in
      let yes : (sock == client.socket) ≡ true = ground (arith, same_socket) in
      let found : find_entry client_socket sock
            (set_entry client_socket client.socket with_message st.clients)
          ≡ some with_message =
        find-set client_socket client.socket sock with_message st.clients refl
        ∙ rw (yes, known') refl in
      let message : find_entry msgid_of puback.msg_id (client.outbound_msgs ++ stored_message ∷ [])
          ≡ some stored_message =
        find-append msgid_of puback.msg_id client.outbound_msgs stored_message
        ∙ rw (same, id_unused) (ground arith) in
      elim (Bool-cases (qos == 1)) [
        | inl one ↦
            rw (client_at, found, message, one, removed)
              (rw
                (
                  drop-append block_of block client.outbound_msgs stored_message refl block_unused,
                  set-set client_socket client.socket st.clients client with_message refl known',
                )
                refl)
        | inr other ↦ rw (client_at, found, message, other) refl
      ]

  -- A message with a topic that is to be published, where memory is given, the properties can be
  -- copied, and its identifier and the new blocks are not in use: it is in flight under its
  -- identifier then, and what is sent is the packet. The acknowledgement of a message with quality
  -- of service 1 leaves the state that was before, so that neither the message nor its publication
  -- stays; at another quality of service it changes nothing.
  pub start_message-handle_pubacks :
      (puback : Ack)
      → puback.msg_id ≡ pack.msg_id
      → Ends
          (λ (m, sending, left, client', pubs').
            (find_entry msgid_of pack.msg_id client'.outbound_msgs ≡ some m)
            × (sending ≡ record pack { properties = m.properties })
            × (handle_pubacks puback sock (put_client client' (record st { publications = pubs' }))
                ≡ done (
                  tcpsocket_complete,
                  if qos == 1 then st else put_client client' (record st { publications = pubs' }),
                )))
          (start_message mem stale pack none qos retained client st.publications)
  start_message-handle_pubacks puback same = rw start_message_lem (
      ends (
        find-append msgid_of pack.msg_id client.outbound_msgs stored_message
            ∙ rw id_unused (ground arith),
        refl,
        acknowledged puback same,
      ))
