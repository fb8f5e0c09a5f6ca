-- ===== src/Protocol/Outgoing.antt =====
-- src/MQTTProtocol.c: publications of the client, `MQTTProtocol_createMessage` and what
-- `MQTTProtocol_startPublish` does with its result before it sends.
-- What `MQTTProtocol_createMessage` returns: `NULL`, the address of a message that it has freed, or a
-- message.
use mqtt_client.Entries.{find_entry, set_entry}
use mqtt_client.LinkedList.{increment}
use mqtt_client.Packet.{Publish}
use mqtt_client.Prelude.{
  Bool, List, Option, [], false, if◌then◌else◌, leb, none, some, ℕ, ◌++◌, ◌==◌, ◌∷◌,
}
use mqtt_client.Prelude.Run.{Run, done, fault, ◌>>=◌}
use mqtt_client.Properties.{properties_copy}
use mqtt_client.Protocol.{Client, Message, Publication, address_of, pubrec_type, store_publication}
use mqtt_client.Wire.{copy_from}

pub data Created : Type 0 where
  no_message : Created
  freed : Created
  created : Message → Created

-- What the calls of `malloc` answer: the addresses of a message and of a publication, whether there
-- is room for a copy of the payload, and for the elements of the two lists; `entries` is for the
-- properties.
pub record Answers : Type 0 where
  pub message : Option ℕ
  pub publication : Option ℕ
  pub payload : Bool
  pub publication_listed : Bool
  pub message_listed : Bool
  pub entries : ℕ → ℕ → Bool

-- The copy of the payload that the publication `a` gets for its own.
unfoldable pub own_payload : ℕ → List Publication → Run (List Publication)
own_payload a pubs = elim (find_entry address_of a pubs) [
  | none ↦ fault
  | some p ↦ copy_from (record { len = p.payloadlen; chars = p.payload }) >>= λ bytes.
      done (set_entry address_of a (record p { payload = some bytes }) pubs)
]

-- The publication `a` without a payload.
unfoldable pub no_payload : ℕ → List Publication → Run (List Publication)
no_payload a pubs = elim (find_entry address_of a pubs) [
  | none ↦ fault
  | some p ↦ done (set_entry address_of a (record p { payload = none }) pubs)
]

-- One more reference to the publication `a`.
unfoldable pub share_publication : ℕ → List Publication → Run (List Publication)
share_publication a pubs = elim (find_entry address_of a pubs) [
  | none ↦ fault
  | some p ↦ done (set_entry address_of a (record p { refcount = increment p.refcount }) pubs)
]

-- The packet `qos12pub` of the message `m`, whose publication the argument is.
unfoldable pub packet_of : Message → Publish → Option Publication → Run Publish
packet_of m pack none = fault
packet_of m pack (some p) = done (record pack {
  topic = p.topic;
  payload = record pack.payload { chars = p.payload };
  properties = m.properties;
  mqtt_version = m.mqtt_version;
})

module _ (mem : Answers) where
  -- The message once its publication is `a`. `stale` is the fresh message.
  unfoldable pub fill_message : (stale : Message) (a : ℕ) (qos retained : ℕ) → Publish → Run Message
  fill_message stale a qos retained pack =
      (if leb 5 pack.mqtt_version
        then properties_copy mem.entries pack.properties
        else done stale.properties)
      >>= λ props. done (record {
        block = stale.block;
        qos = qos;
        retain = retained;
        msgid = pack.msg_id;
        mqtt_version = pack.mqtt_version;
        properties = props;
        publish = some a;
        next_message_type = if qos == 2 then pubrec_type else stale.next_message_type;
      })

  -- The result, what is left in `publish`, and the publications. `mm` is what `*mm` points at.
  unfoldable pub create_message :
      (stale : Message)
      → Publish
      → (mm : Option Message) → (qos retained : ℕ) → (allocate_payload : Bool) → List Publication
      → Run (Created × Publish × List Publication)
  unfolding store_publication own_payload no_payload share_publication fill_message
  create_message stale pack mm qos retained allocate_payload pubs = elim mem.message [
    | none ↦ done (no_message, pack, pubs)
    | some block ↦
        let m = record stale { block = block } in
        let shared : Option ℕ = elim mm [ none ↦ none | some old ↦ old.publish ] in
        elim shared [
          | none ↦
              store_publication mem.publication mem.publication_listed pack pubs
              >>= λ (p, left, pubs'). elim p [
                | none ↦ done (freed, left, pubs')
                | some a ↦
                    if allocate_payload
                    then (if mem.payload
                        then (own_payload a pubs' >>= λ pubs''.
                            fill_message m a qos retained left >>= λ m'.
                            done (created m', left, pubs''))
                        else (no_payload a pubs' >>= λ pubs''. done (freed, left, pubs'')))
                    else (fill_message m a qos retained left >>= λ m'.
                        done (created m', left, pubs'))
              ]
          | some a ↦ share_publication a pubs >>= λ pubs'.
              fill_message m a qos retained pack >>= λ m'. done (created m', pack, pubs')
        ]
  ]

  -- `MQTTProtocol_startPublish` for a quality of service above 0, up to the sending: the message,
  -- the packet that is to be sent, what is left in `publish`, the client and the publications. A
  -- message that there is not, or no more, is followed all the same.
  unfoldable pub start_message :
      (stale : Message)
      → Publish
      → (mm : Option Message) (qos retained : ℕ) → Client
      → List Publication
      → Run (Message × Publish × Publish × Client × List Publication)
  unfolding create_message packet_of
  start_message stale pack mm qos retained client pubs =
      create_message stale pack mm qos retained false pubs >>= λ (result, left, pubs').
      elim result [
        | no_message ↦ fault
        | freed ↦ fault
        | created m ↦ elim m.publish [
          | none ↦ fault
          | some a ↦ packet_of m pack (find_entry address_of a pubs') >>= λ sending. done (
            m,
            sending,
            left,
            if mem.message_listed
                then record client { outbound_msgs = client.outbound_msgs ++ m ∷ [] }
                else client,
            pubs',
          )
        ]
      ]
