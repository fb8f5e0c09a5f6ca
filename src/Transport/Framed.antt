-- ===== src/Transport/Framed.antt =====
-- A transport of test data that keeps the bytes of its frame, so that a position in it can be sought.
use mathlib.Core.List.{append-nil, append_assoc}
use mqtt_client.Prelude.{
  [], ap, arith, drop, length, length-append, length-take, refl, some, sym, take, take-append-drop,
  ℕ, ◌%◌, ◌++◌, ◌∙◌, ◌∷◌, ◌≡◌,
}
use mqtt_client.Prelude.Int.{ℤ}
use mqtt_client.Prelude.Predicates.{Bytes, IsByte}
use mqtt_client.Transport.{Transport, tcpsocket_complete, tcpsocket_interrupted}
use mqtt_client.Transport.Rewinding.{Extends, Rewinds}

-- The bytes in front of the position, and those behind it.
pub record Framed : Type 0 where
  pub read : Bytes
  pub unread : Bytes

abbrev pub frame_of : Framed → Bytes
frame_of s = s.read ++ s.unread

abbrev framed_at : Bytes → ℕ → Framed
framed_at frame place = record { read = take place frame; unread = drop place frame }

abbrev next_byte : (read unread : Bytes) → ℤ × ℕ × Framed
next_byte read [] = (tcpsocket_interrupted, 0, record { read = read; unread = [] })
next_byte read (b ∷ bs) =
    (tcpsocket_complete, b % 256, record { read = read ++ (b ∷ []); unread = bs })

pub next_byte-IsByte : (read unread : Bytes) → IsByte ((next_byte read unread).1)
next_byte-IsByte read [] = omega arith
next_byte-IsByte read (b ∷ bs) = omega arith

next_byte_frame : (read unread : Bytes) → frame_of (next_byte read unread).2 ≡ read ++ unread
next_byte_frame read [] = refl
next_byte_frame read (b ∷ bs) = append_assoc read (b ∷ []) bs

abbrev pub framed_transport : Transport Framed
framed_transport = record {
  getch = λ s. next_byte s.read s.unread;
  getdata = λ n s. (
    some (take n s.unread),
    record { read = s.read ++ take n s.unread; unread = drop n s.unread },
  );
  putdatas = λ buf bufs s. (tcpsocket_complete, bufs.mask, s);
  frame_pos = λ s. length s.read;
  frame_pos_seek_to = λ place s. framed_at (frame_of s) place;
  touch_sent = λ s. s;
  touch_received = λ s. s;
  getch-IsByte = λ s. next_byte-IsByte s.read s.unread;
}

kept : (s : Framed) (frame : Bytes) → frame ≡ frame_of s → Extends (frame_of s) frame
kept s frame e = ([], e ∙ sym (append-nil (frame_of s)))

pub framed_transport-Rewinds : Rewinds framed_transport frame_of
framed_transport-Rewinds = record {
  frame_pos_within = λ s. omega (arith, length-append s.read s.unread);
  getch-Extends = λ s. kept s _ (next_byte_frame s.read s.unread);
  getdata-Extends = λ n s bytes answer short. kept s _ (
      append_assoc s.read (take n s.unread) (drop n s.unread)
      ∙ ap (λ (bs : Bytes). s.read ++ bs) (take-append-drop n s.unread));
  frame_pos-frame_pos_seek_to =
      λ place s within. length-take place (frame_of s) ∙ omega (arith, within);
  content-frame_pos_seek_to = λ place s. take-append-drop place (frame_of s);
}
