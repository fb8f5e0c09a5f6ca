-- ===== src/Transport.antt =====
-- What the packet layer needs of the layer below it: utils/WebSocket.h and the return codes of
-- utils/Socket.h. The packet layer reads bytes by `WebSocket_getch`, blocks by `WebSocket_getdata`,
-- and hands over buffers by `WebSocket_putdatas`.
pub mod Delivery
pub mod Framed
pub mod Rewinding
pub mod Stream
use mqtt_client.Prelude.{Bool, List, Option, ℕ}
use mqtt_client.Prelude.Int.{negsuc, pos, ℤ}
use mqtt_client.Prelude.Predicates.{Bytes, IsByte}

abbrev pub tcpsocket_complete : ℤ
tcpsocket_complete = pos 0

abbrev pub socket_error : ℤ
socket_error = negsuc 0

abbrev pub tcpsocket_interrupted : ℤ
tcpsocket_interrupted = negsuc 21

-- The buffers of one packet behind its first one; `buflens` is the length of each.
pub record PacketBuffers : Type 0 where
  pub buffers : List Bytes
  pub frees : List Bool
  pub mask : Bytes

-- `S` is the state of the socket and frame layers with the `networkHandles` of one client.
pub record Transport (S : Type 0) : Type 0 where
  -- the return code, the character and the new state
  pub getch : S → ℤ × ℕ × S
  -- the valid bytes behind the returned pointer, `none` for `NULL`
  pub getdata : ℕ → S → Option Bytes × S
  -- the return code, the websocket mask and the new state
  pub putdatas : Bytes → PacketBuffers → S → ℤ × Bytes × S
  pub frame_pos : S → ℕ
  pub frame_pos_seek_to : ℕ → S → S
  -- `net->lastSent = MQTTTime_now()` and `net->lastReceived = MQTTTime_now()`
  pub touch_sent : S → S
  pub touch_received : S → S
  pub getch-IsByte : (s : S) → IsByte ((getch s).1)
