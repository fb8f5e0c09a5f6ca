-- ===== src/SocketBuffer/Runs.antt =====
-- Runs of the socket buffers, and their theorems at small states.
use mqtt_client.Entries.{find_entry, set_entry}
use mqtt_client.Prelude.{Option, [], arith, none, refl, some, true, ℕ, ◌∷◌, ◌≡◌}
use mqtt_client.Prelude.Int.{ℤ}
use mqtt_client.Prelude.Run.{Ends, Run, done, fault, ◌>>=◌}
use mqtt_client.SocketBuffer.{
  SocketBuffers, SocketQueue, block_of_size, copy_block, get_queued_char, get_queued_data, grow,
  initialize, interrupted, new_def_q, new_queue, no_queue, queue_char, store_char, with_room,
}
use mqtt_client.SocketBuffer.Consistent.{
  Allowed, IsConsistent, char_queued, char_read, initialize-Reach-IsConsistent, onward, run, start,
}

abbrev blank_queue : SocketQueue
blank_queue = record {
  socket = 0;
  index = 0;
  headerlen = 0;
  fixed_header = 0 ∷ 0 ∷ 0 ∷ 0 ∷ 0 ∷ [];
  buflen = 0;
  datalen = 0;
  buf = none;
}

abbrev idle : SocketBuffers
idle = record { def_queue = some blank_queue; queues = []; writes = [] }

abbrev char_of : Run (ℤ × Option ℕ × SocketBuffers) → Option ℕ
char_of (done (rc, c, st)) = c
char_of fault = none

-- A header byte is read again after an interruption.
again :
    char_of (
      queue_char 5 48 idle
      >>= interrupted 5 0 true (new_queue blank_queue (0 ∷ []))
      >>= get_queued_char 5)
    ≡ some 48
unfolding queue_char interrupted get_queued_char find_entry set_entry
again = refl

-- A default queue that could not be allocated is a fault of the next interruption.
exhausted :
    (interrupted 5 0 true no_queue idle >>= interrupted 6 0 true (new_queue blank_queue (0 ∷ [])))
    ≡ fault
unfolding interrupted find_entry
exhausted = refl

abbrev first_state : SocketBuffers
first_state = (initialize (new_queue blank_queue (0 ∷ [])) true).1

-- The state after one byte has been queued.
abbrev one_char : SocketBuffers
one_char = record first_state {
  def_queue = some (record blank_queue {
    socket = 5;
    index = 1;
    headerlen = 1;
    fixed_header = 48 ∷ 0 ∷ 0 ∷ 0 ∷ 0 ∷ [];
    buf = some (0 ∷ []);
  });
}

initialize-Reach-IsConsistent_example :
    IsConsistent one_char × Ends IsConsistent (run (char_read 5) one_char)
unfolding run queue_char store_char find_entry Allowed initialize new_def_q
initialize-Reach-IsConsistent_example =
    initialize-Reach-IsConsistent blank_queue (0 ∷ []) (char_read 5) refl
      (onward (char_queued 5 48) start (λ e. absurd (omega arith)) refl) tt

-- The queue of socket 5 holds two bytes in a block of two.
abbrev two_held : SocketQueue
two_held = record blank_queue { socket = 5; buflen = 2; datalen = 2; buf = some (1 ∷ 2 ∷ []) }

abbrev held_state : SocketBuffers
held_state = record idle { queues = two_held ∷ [] }

-- When one more byte is asked for, the two are counted still, and the new block has none of them.
lost :
    get_queued_data 5 3 (some (9 ∷ 9 ∷ 9 ∷ [])) held_state
    ≡ done (
      some (9 ∷ 9 ∷ 9 ∷ []),
      2,
      record idle { queues = record two_held { buflen = 3; buf = some (9 ∷ 9 ∷ 9 ∷ []) } ∷ [] },
    )
unfolding get_queued_data with_room grow copy_block block_of_size find_entry set_entry
lost = refl
