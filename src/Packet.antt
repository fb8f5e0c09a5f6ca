-- ===== src/Packet.antt =====
-- MQTTPacket.c with the packet structures of utils/TypeDefine.h: what packets are, how they are read
-- and how they are sent.
pub mod Header
pub mod Receive
pub mod Accepted
pub mod Acks
pub mod Factory
pub mod Send
mod Runs
use Prim.Native.Char.{code}
use mqtt_client.Prelude.{
  Bool, List, Option, [], if◌then◌else◌, length, ltb, none, some, ℕ, ◌%◌, ◌*◌, ◌++◌, ◌+◌, ◌/◌, ◌==◌,
  ◌∷◌,
}
use mqtt_client.Prelude.Predicates.{Bytes}
use mqtt_client.Prelude.Run.{Run, done, fault, ◌>>=◌}
use mqtt_client.Properties.{Properties, no_properties}
use mqtt_client.Wire.{LenString, read_char, read_int, read_utf_len}

-- `enum msgTypes`.
abbrev pub connect_type : ℕ
connect_type = 1

abbrev pub publish_type : ℕ
publish_type = 3

abbrev pub puback_type : ℕ
puback_type = 4

abbrev pub subscribe_type : ℕ
subscribe_type = 8

abbrev pub disconnect_type : ℕ
disconnect_type = 14

abbrev pub auth_type : ℕ
auth_type = 15

-- `union Header` as its byte. The bit fields are `retain : 1`, `qos : 2`, `dup : 1` and `type : 4`,
-- from the lowest bit on.
unfoldable pub header_type : ℕ → ℕ
header_type byte = byte / 16 % 16

unfoldable pub header_dup : ℕ → ℕ
header_dup byte = byte / 8 % 2

unfoldable pub header_qos : ℕ → ℕ
header_qos byte = byte / 2 % 4

unfoldable pub header_retain : ℕ → ℕ
header_retain byte = byte % 2

-- The byte after an assignment to each of the bit fields, which keep the low bits of the values.
unfoldable pub make_header : (type dup qos retain : ℕ) → ℕ
make_header type dup qos retain = type % 16 * 16 + dup % 2 * 8 + qos % 4 * 2 + retain % 2

-- `topic` and `payload` are `none` where the pointer is `NULL`.
pub record Publish : Type 0 where
  pub header : ℕ
  pub topic : Option Bytes
  pub topiclen : ℕ
  pub msg_id : ℕ
  pub payload : LenString
  pub mqtt_version : ℕ
  pub properties : Properties
  pub mask : Bytes

pub record Ack : Type 0 where
  pub header : ℕ
  pub msg_id : ℕ
  pub mqtt_version : ℕ

pub record Connack : Type 0 where
  pub header : ℕ
  pub flags : ℕ
  pub return_code : ℕ
  pub mqtt_version : ℕ

pub record Suback : Type 0 where
  pub header : ℕ
  pub msg_id : ℕ
  pub mqtt_version : ℕ
  pub qoss : List ℕ

abbrev pub no_mask : Bytes
no_mask = 0 ∷ 0 ∷ 0 ∷ 0 ∷ []

-- The readers take the data of the packet, `datalen` bytes. The result `none` is `NULL`, and `mem k`
-- says whether the k-th `malloc` of the call succeeds.

-- `MQTTPacket_publish` behind the topic.
publish_rest :
    (version header : ℕ) → (topic : Bytes) → (topiclen : ℕ) → Bytes → Run (Option Publish)
publish_rest version header topic topiclen cur = do
  (id, cur) ←
      (if ltb 0 (header_qos header)
        then (if ltb (length cur) 2
            then done (none, cur)
            else (do (id, cur) ← read_int cur; done (some id, cur)))
        else done (some 0, cur))
  done (elim id [
    | none ↦ none
    | some id ↦ some (record {
      header = header;
      topic = some topic;
      topiclen = topiclen;
      msg_id = id;
      payload = record { len = length cur; chars = some cur };
      mqtt_version = version;
      properties = no_properties;
      mask = no_mask;
    })
  ])

pub publish : (mem : ℕ → Bool) → (version header : ℕ) → Bytes → Run (Option Publish)
unfolding publish_rest
publish mem version header block =
    if mem 0
    then (do
      (topic, topiclen, cur) ← read_utf_len (mem 1) 0 block
      elim topic [ none ↦ done none | some topic ↦ publish_rest version header topic topiclen cur ])
    else done none

-- `MQTTPacket_ack`; `stale` is what the fresh memory holds in the place of `msgId`.
pub ack : (mem : ℕ → Bool) → (stale : ℕ) → (version header : ℕ) → Bytes → Run (Option Ack)
ack mem stale version header block =
    if mem 0
    then (if header_type header == disconnect_type
        then done (some (record { header = header; msg_id = stale; mqtt_version = version }))
        else if ltb (length block) 2
        then done none
        else (do
          (id, cur) ← read_int block
          done (some (record { header = header; msg_id = id; mqtt_version = version }))))
    else done none

-- `MQTTPacket_connack`.
pub connack : (mem : ℕ → Bool) → (version header : ℕ) → Bytes → Run (Option Connack)
connack mem version header block =
    if mem 0
    then (if ltb (length block) 2 then done none else (do
      (flags, cur) ← read_char block
      (code, cur) ← read_char cur
      done (
          some (record {
            header = header;
            flags = flags;
            return_code = code;
            mqtt_version = version;
          }))))
    else done none

-- `free(pack->properties.array)` where `garbage` says that the word, which nothing has set, is not
-- zero: the release of a pointer that is none of `malloc`.
free_properties : (garbage : Bool) → Run (Unit {0})
free_properties garbage = if garbage then fault else done tt

-- `ListAppend` to the list of qualities of service; `none` is a list that `malloc` refused, and a
-- refused element is not appended.
append_qos : (allocated : Bool) → ℕ → Option (List ℕ) → Run (Option (List ℕ))
append_qos allocated q qoss =
    if allocated
    then elim qoss [ none ↦ fault | some held ↦ done (some (held ++ q ∷ [])) ]
    else done qoss

-- The loop over the granted qualities of service; `none` is the failed `malloc` of a number.
suback_loop : (mem : ℕ → Bool) → (k : ℕ) → Bytes → Option (List ℕ) → Run (Option (Option (List ℕ)))
suback_loop mem k [] qoss = done (some qoss)
suback_loop mem k (b ∷ cur) qoss =
    let rest = append_qos (mem (k + 1)) b qoss >>= suback_loop mem (k + 2) cur in
    if mem k then rest else done none

-- `MQTTPacket_suback`; `garbage` speaks of `pack->properties.array` in the fresh memory.
pub suback :
    (mem : ℕ → Bool) → (garbage : Bool) → (version header : ℕ) → Bytes → Run (Option Suback)
unfolding free_properties suback_loop append_qos
suback mem garbage version header block =
    if mem 0
    then (if ltb (length block) 2 then done none else (do
      (id, cur) ← read_int block
      outcome ← suback_loop mem 2 cur (if mem 1 then some [] else none)
      elim outcome [
        | none ↦ (do _ ← free_properties garbage; done none)
        | some none ↦ fault
        | some (some []) ↦ (do _ ← free_properties garbage; done none)
        | some (some (q ∷ qoss)) ↦ done (
            some (record { header = header; msg_id = id; mqtt_version = version; qoss = q ∷ qoss }))
      ]))
    else done none
