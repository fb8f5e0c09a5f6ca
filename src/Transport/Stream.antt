-- ===== src/Transport/Stream.antt =====
-- A transport of test data: the bytes of a list come in, and what is handed over is collected.
use mqtt_client.Prelude.{List, [], arith, drop, some, take, ℕ, ◌%◌, ◌++◌, ◌+◌, ◌∷◌}
use mqtt_client.Prelude.Int.{ℤ}
use mqtt_client.Prelude.Predicates.{Bytes, IsByte}
use mqtt_client.Transport.{Transport, tcpsocket_complete, tcpsocket_interrupted}

pub record Stream : Type 0 where
  pub incoming : Bytes
  pub sent : Bytes
  pub pos : ℕ

-- What is left to read at a position.
abbrev pub read_to : Bytes → ℕ → Stream
read_to bs pos = record { incoming = bs; sent = []; pos = pos }

abbrev pub incoming_stream : Bytes → Stream
incoming_stream bs = read_to bs 0

abbrev next_byte : Bytes → Stream → ℤ × ℕ × Stream
next_byte [] s = (tcpsocket_interrupted, 0, s)
next_byte (b ∷ bs) s =
    (tcpsocket_complete, b % 256, record { incoming = bs; sent = s.sent; pos = s.pos + 1 })

pub next_byte-IsByte : (bs : Bytes) (s : Stream) → IsByte ((next_byte bs s).1)
next_byte-IsByte [] s = omega arith
next_byte-IsByte (b ∷ bs) s = omega arith

abbrev all_bytes : List Bytes → Bytes
all_bytes [] = []
all_bytes (b ∷ bufs) = b ++ all_bytes bufs

abbrev pub stream_transport : Transport Stream
stream_transport = record {
  getch = λ s. next_byte s.incoming s;
  getdata = λ n s. (
    some (take n s.incoming),
    record { incoming = drop n s.incoming; sent = s.sent; pos = s.pos + n },
  );
  putdatas = λ buf bufs s. (
    tcpsocket_complete,
    bufs.mask,
    record { incoming = s.incoming; sent = s.sent ++ buf ++ all_bytes bufs.buffers; pos = s.pos },
  );
  frame_pos = λ s. s.pos;
  frame_pos_seek_to = λ pos s. record { incoming = s.incoming; sent = s.sent; pos = pos };
  touch_sent = λ s. s;
  touch_received = λ s. s;
  getch-IsByte = λ s. next_byte-IsByte s.incoming s;
}
