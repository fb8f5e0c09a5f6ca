-- ===== src/Socket/Runs.antt =====
-- Runs of the socket operations, and their theorems at small states.
use mqtt_client.Entries.{find_entry}
use mqtt_client.Prelude.{[], arith, false, length, none, refl, some, take, true, ◌+◌, ◌∷◌, ◌≡◌, ◌⊎◌}
use mqtt_client.Prelude.Int.{pos}
use mqtt_client.Prelude.Run.{Ends}
use mqtt_client.Socket.{Sockets, flatten, socket_no_pending_writes}
use mqtt_client.Socket.Deliver.{IsPending, Line, line_of}
use mqtt_client.Socket.Getch.{Arrivals, arriving}
use mqtt_client.Socket.Header.{read_header, read_header-arriving}
use mqtt_client.Socket.Send.{send_packet, send_packet-flatten}
use mqtt_client.SocketBuffer.{Iobuf, NewQueue, PendingWrite, SocketBuffers, SocketQueue, new_queue}
use mqtt_client.SocketBuffer.Consistent.{IsConsistent}

abbrev blank : SocketQueue
blank = record {
  socket = 0;
  index = 0;
  headerlen = 0;
  fixed_header = 0 ∷ 0 ∷ 0 ∷ 0 ∷ 0 ∷ [];
  buflen = 0;
  datalen = 0;
  buf = none;
}

abbrev quiet_buffers : SocketBuffers
quiet_buffers = record { def_queue = some blank; queues = []; writes = [] }

-- A header of two bytes, with a silence before each.
abbrev slow : Arrivals
slow = none ∷ some 48 ∷ none ∷ some 7 ∷ []

abbrev memory_of : Arrivals → NewQueue
memory_of n = new_queue blank (0 ∷ [])

quiet_buffers-IsConsistent : IsConsistent quiet_buffers
quiet_buffers-IsConsistent = record {
  default = ((omega arith, omega arith, refl, omega arith), λ e. (refl, refl));
  queues = tt;
  unique = tt;
  writes = tt;
}

read_header-arriving_example :
    Ends
      (λ (r, st', n'). r ≡ some (take 2 (arriving slow)))
      (read_header memory_of 5 (length slow + 1) 2 quiet_buffers slow)
unfolding find_entry
read_header-arriving_example =
    read_header-arriving memory_of 5 2 quiet_buffers slow blank (λ e. absurd (omega arith))
      quiet_buffers-IsConsistent refl refl refl (omega arith) (omega arith)

abbrev fixed_part : Iobuf
fixed_part = record { iov_base = 48 ∷ 3 ∷ []; iov_len = 2 }

abbrev body_part : Iobuf
body_part = record { iov_base = 1 ∷ 2 ∷ 3 ∷ []; iov_len = 3 }

abbrev half_written : PendingWrite
half_written = record {
  socket = 5;
  count = 2;
  total = 5;
  bytes = 1;
  iovecs = fixed_part ∷ body_part ∷ [];
  frees = true ∷ false ∷ [];
}

abbrev half_buffers : SocketBuffers
half_buffers = record quiet_buffers { writes = half_written ∷ [] }

abbrev half_line : Line
half_line = record { windows = 2 ∷ 0 ∷ 9 ∷ []; sent = 48 ∷ [] }

half_written-IsPending : IsPending half_written half_line
unfolding flatten
half_written-IsPending = record {
  full = (refl, (refl, tt));
  total = refl;
  begun = omega arith;
  sent = refl;
}

abbrev sockets : Sockets
sockets = record { buffers = quiet_buffers; write_pending = []; pending_wset = λ i. false }

send_packet-flatten_example :
    Ends
      (λ (rc, sent). ((rc ≡ pos 0) ⊎ (rc ≡ pos 1)) × (sent ≡ flatten (fixed_part ∷ body_part ∷ [])))
      (send_packet 5 fixed_part ((body_part, false) ∷ []) sockets (line_of (1 ∷ 0 ∷ 7 ∷ []) []))
unfolding find_entry flatten socket_no_pending_writes
send_packet-flatten_example =
    send_packet-flatten 5 fixed_part ((body_part, false) ∷ []) sockets (1 ∷ 0 ∷ 7 ∷ []) refl refl
      (omega arith) (refl, (refl, tt)) (omega arith)
