-- ===== src/Packet/Send/Frames.antt =====
-- `MQTTPacket_send`, `MQTTPacket_sends` and `MQTTPacket_send_ack`: the bytes that are handed over.
use mqtt_client.Packet.{ack, header_type, make_header, puback_type}
use mqtt_client.Packet.Send.{
  Sent, conclude, contents, head_buffer, one_buffer, release_unless_interrupted, send, send_puback,
  sends, total_length,
}
use mqtt_client.Prelude.{
  Bool, Bool-cases, List, [], arith, if◌then◌else◌, inl, inr, length, length-append, refl, some,
  true, ℕ, ◌++◌, ◌+◌, ◌<◌, ◌∙◌, ◌∷◌, ◌≡◌,
}
use mqtt_client.Prelude.Int.{ℤ, ◌==ℤ◌}
use mqtt_client.Prelude.Predicates.{Bytes}
use mqtt_client.Prelude.Run.{done, ◌>>=◌}
use mqtt_client.RemainingLength.{encode, encode_count}
use mqtt_client.Transport.{PacketBuffers, Transport, tcpsocket_complete, tcpsocket_interrupted}
use mqtt_client.Wire.{fresh, put, read_int}
use mqtt_client.Wire.RoundTrip.{read_int-int_bytes}
use mqtt_client.Wire.Writing.{int_bytes, put-put_bind, put_exact, write_int-put}

-- A buffer that is as long as the block written to it holds the block.
pub contents_exact :
    (bs : Bytes) (n : ℕ) → n ≡ length bs → (put bs (fresh n) >>= contents) ≡ done bs
unfolding contents
contents_exact bs n h = rw (h, put_exact)

-- The first buffer is filled exactly, with the header byte and the remaining length.
pub head_buffer_lem : (header n : ℕ) → head_buffer header n ≡ done (header ∷ encode n)
unfolding head_buffer encode_count
head_buffer_lem header n =
    put-put_bind (header ∷ []) (encode n) (fresh (1 + length (encode n))) contents
    ∙ contents_exact (header ∷ encode n) (1 + length (encode n)) (omega arith)

-- The bytes of the buffers, one after the other.
unfoldable pub joined : List Bytes → Bytes
joined [] = []
joined (b ∷ bufs) = b ++ joined bufs

pub length-joined : (bufs : List Bytes) → length (joined bufs) ≡ total_length bufs
unfolding joined total_length
length-joined [] = refl
length-joined (b ∷ bufs) = omega (arith, length-append b (joined bufs), length-joined bufs)

read_int-int_bytes_nil : (n : ℕ) → n < 65536 → read_int (int_bytes n) ≡ done (n, [])
unfolding int_bytes
read_int-int_bytes_nil n h = read_int-int_bytes n [] h

module _ {S : Type 0} (t : Transport S) where
  pub sends_lem :
      (header : ℕ) (bufs : PacketBuffers) (s : S)
      → let buf = header ∷ encode (length (joined bufs.buffers)) in
        sends t true header bufs s ≡ done (conclude t buf (t.putdatas buf bufs s))
  unfolding sends
  sends_lem header bufs s = rw (length-joined bufs.buffers, head_buffer_lem)

  pub send_lem :
      (header : ℕ) (buffer : Bytes) (free_data : Bool) (s : S)
      → let buf = header ∷ encode (length buffer) in
        send t true header buffer free_data s
        ≡ done (conclude t buf (t.putdatas buf (one_buffer buffer free_data) s))
  unfolding send
  send_lem header buffer free_data s = rw head_buffer_lem

  -- What a sending function comes to when the layer below gives `answer`: its result and mask, the
  -- time of the sending where all is sent, and the buffers that stay allocated, which are `kept`
  -- where the layer below still needs them and none otherwise.
  unfoldable pub answered : (kept : List Bytes) → (answer : ℤ × Bytes × S) → Sent S
  answered kept (rc, mask, s) = record {
    rc = rc;
    mask = mask;
    state = if rc ==ℤ tcpsocket_complete then t.touch_sent s else s;
    held = if rc ==ℤ tcpsocket_interrupted then kept else [];
  }

  pub release-conclude :
      (buf : Bytes) (bufs : List Bytes) (answer : ℤ × Bytes × S)
      → release_unless_interrupted t bufs (conclude t buf answer) ≡ answered (buf ∷ bufs) answer
  unfolding release_unless_interrupted conclude answered
  release-conclude buf bufs (rc, mask, s) = elim (Bool-cases (rc ==ℤ tcpsocket_interrupted)) [
    | inl busy ↦ rw busy refl
    | inr over ↦ rw over refl
  ]

  -- With memory and an identifier below 65536, `MQTTPacket_send_ack` fills its buffer exactly with the message identifier, hands it over behind
  -- the header byte of PUBACK and its length, and `MQTTPacket_ack` reads the identifier back.
  pub send_puback-ack :
      (mem mem' : ℕ → Bool) (msgid stale version : ℕ) (s : S)
      → mem 0 ≡ true
      → mem 1 ≡ true
      → mem' 0 ≡ true
      → msgid < 65536
      → let header = make_header puback_type 0 0 0 in
        let buf = header ∷ encode 2 in
        (send_puback t mem msgid s
          ≡ done (
              answered
                (buf ∷ int_bytes msgid ∷ [])
                (t.putdatas buf (one_buffer (int_bytes msgid) true) s)))
        × (ack mem' stale version header (int_bytes msgid)
            ≡ done (some (record { header = header; msg_id = msgid; mqtt_version = version })))
  unfolding send_puback contents int_bytes
  send_puback-ack mem mem' msgid stale version s m0 m1 m0' h = (
    rw (m0, m1, write_int-put, put_exact (int_bytes msgid), send_lem, release-conclude) refl,
    unfold ack header_type make_header in rw (m0', read_int-int_bytes_nil msgid h) refl,
  )
