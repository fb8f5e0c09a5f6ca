-- ===== src/Packet/Factory.antt =====
-- `MQTTPacket_Factory`: one packet from the transport, by the table `new_packets`.
pub mod Interrupted
pub mod Outcomes
mod Runs
use mathlib.Core.Option
use mqtt_client.Packet.{
  Ack, Connack, Publish, Suback, ack, auth_type, connack, connect_type, disconnect_type,
  header_type, publish, suback,
}
use mqtt_client.Prelude.{
  Bool, List, Option, [], get_elem?, if◌then◌else◌, leb, length, ltb, none, some, take, ℕ, ◌&&◌,
  ◌==◌, ◌||◌, ◌∷◌,
}
use mqtt_client.Prelude.Int.{ℤ, ◌==ℤ◌}
use mqtt_client.Prelude.Predicates.{Bytes}
use mqtt_client.Prelude.Run.{Run, done, fault, ◌>>=◌}
use mqtt_client.RemainingLength.{decode}
use mqtt_client.Transport.{Transport, socket_error, tcpsocket_complete, tcpsocket_interrupted}

-- The functions of the table.
pub data Builder : Type 0 where
  build_connack build_publish build_ack build_suback : Builder

-- `new_packets`; `none` is `NULL`. It has 13 entries, and a packet type goes up to 15.
abbrev new_packets : List (Option Builder)
new_packets =
    none
    ∷ none
    ∷ some build_connack
    ∷ some build_publish
    ∷ some build_ack
    ∷ some build_ack
    ∷ some build_ack
    ∷ some build_ack
    ∷ none
    ∷ some build_suback
    ∷ none
    ∷ some build_ack
    ∷ some build_ack
    ∷ []

pub data Packet : Type 0 where
  connack_packet : Connack → Packet
  publish_packet : Publish → Packet
  ack_packet : Ack → Packet
  suback_packet : Suback → Packet

-- What `malloc` answers, and what fresh memory holds where the readers leave it as it is.
pub record Memory : Type 0 where
  pub mem : ℕ → Bool
  pub stale_id : ℕ
  pub garbage : Bool

build : Memory → Builder → (version header : ℕ) → Bytes → Run (Option Packet)
build m build_connack version header block = do
  p ← connack m.mem version header block
  done (Option.map connack_packet p)
build m build_publish version header block = do
  p ← publish m.mem version header block
  done (Option.map publish_packet p)
build m build_ack version header block = do
  p ← ack m.mem m.stale_id version header block
  done (Option.map ack_packet p)
build m build_suback version header block = do
  p ← suback m.mem m.garbage version header block
  done (Option.map suback_packet p)

-- `new_packets[ptype]` behind the tests on the type: `none` is `NULL` or a type that the tests
-- refuse, and an index behind the table is a fault.
pub builder_for : (version ptype : ℕ) → Run (Option Builder)
builder_for version ptype =
    if ltb ptype connect_type
      || (ltb version 5 && leb disconnect_type ptype)
      || (leb 5 version && ltb auth_type ptype)
    then done none
    else elim (get_elem? new_packets ptype) [ none ↦ fault | some entry ↦ done entry ]

-- A failed constructor is an error, and a packet type without one is not.
outcome_of : Option Packet → ℤ × Option Packet
outcome_of none = (socket_error, none)
outcome_of (some p) = (tcpsocket_complete, some p)

build_entry : Memory → (version header : ℕ) → Bytes → Option Builder → Run (ℤ × Option Packet)
build_entry m version header block none = done (tcpsocket_complete, none)
build_entry m version header block (some builder) = do
  pack ← build m builder version header block
  done (outcome_of pack)

-- The branch with all the data there: `*error` and the packet.
make_packet : Memory → (version header : ℕ) → Bytes → Run (ℤ × Option Packet)
make_packet m version header block =
    builder_for version (header_type header) >>= build_entry m version header block

module _ {S : Type 0} (t : Transport S) where
  -- The label `exit`: an interrupted read is to be repeated from the saved position.
  leave : (saved : ℕ) → ℤ × Option Packet × S → ℤ × Option Packet × S
  leave saved (error, pack, s) =
      (error, pack, if error ==ℤ tcpsocket_interrupted then t.frame_pos_seek_to saved s else s)

  -- `if (pack) net->lastReceived = MQTTTime_now();`
  finish : S → ℤ × Option Packet → ℤ × Option Packet × S
  finish s (error, none) = (error, none, s)
  finish s (error, some p) = (error, some p, t.touch_received s)

  -- The variable header and the payload, with what `WebSocket_getdata` has returned.
  on_data : Memory → (version header remaining : ℕ) → Option Bytes × S → Run (ℤ × Option Packet × S)
  on_data m version header remaining (none, s) =
      if remaining == 0
      then (do outcome ← make_packet m version header []; done (finish s outcome))
      else done (socket_error, none, s)
  on_data m version header remaining (some bytes, s) =
      if ltb (length bytes) remaining then done (tcpsocket_interrupted, none, s) else (do
        outcome ← make_packet m version header (take remaining bytes)
        done (finish s outcome))

  -- The result: `*error`, the packet or `NULL`, and the state.
  pub factory : Memory → (version : ℕ) → S → Run (ℤ × Option Packet × S)
  factory m version s =
      let saved = t.frame_pos s in
      let (error, header, s) = t.getch s in
      if error ==ℤ tcpsocket_complete
      then (let (error, remaining, s) = decode t s in
          if error ==ℤ tcpsocket_complete
          then (do
            outcome ← on_data m version header remaining (t.getdata remaining s)
            done (leave saved outcome))
          else done (leave saved (error, none, s)))
      else done (leave saved (error, none, s))
