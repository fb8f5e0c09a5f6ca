-- ===== src/Packet/Factory/Interrupted.antt =====
-- A call of `MQTTPacket_Factory` that is interrupted.
use mqtt_client.Packet.Factory.{Memory, Packet}
use mqtt_client.Prelude.{Option, none, true, ℕ, ◌≡◌}
use mqtt_client.Prelude.Int.{ℤ, ◌==ℤ◌}
use mqtt_client.Prelude.Predicates.{Bytes}
use mqtt_client.Transport.{Transport, tcpsocket_interrupted}
use mqtt_client.Transport.Rewinding.{Extends, Rewinds}

module _ {S : Type 0} (t : Transport S) (m : Memory) (version : ℕ) where
  abbrev IsInterrupted : ℤ × Option Packet × S → Type 0
  IsInterrupted r = (r.0 ==ℤ tcpsocket_interrupted) ≡ true

  module _ (content : S → Bytes) (law : Rewinds t content) where
    abbrev Restored : (s s' : S) → Option Packet → Type 0
    Restored s s' pack =
        (pack ≡ none) × (t.frame_pos s' ≡ t.frame_pos s) × Extends (content s) (content s')
