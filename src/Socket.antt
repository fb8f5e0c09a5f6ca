-- ===== src/Socket.antt =====
-- src/utils/Socket.c: reading and writing on one connection. The operating system is a parameter:
-- `recv` and `writev` take its state `N` and give what the call comes to.
pub mod Deliver
pub mod Getch
pub mod Header
pub mod Resume
mod Runs
pub mod Send
use mqtt_client.SocketBuffer
use mqtt_client.Entries.{find_entry, set_entry}
use mqtt_client.Prelude.{
  Bool, List, Option, [], drop, false, if◌then◌else◌, leb, length, ltb, map, none, not, some, take,
  true, ℕ, ◌++◌, ◌+◌, ◌-◌, ◌==◌, ◌||◌, ◌∷◌,
}
use mqtt_client.Prelude.Int.{pos, ℤ, ◌==ℤ◌}
use mqtt_client.Prelude.Predicates.{Bytes}
use mqtt_client.Prelude.Run.{Run, done, fault, ◌>>=◌}
use mqtt_client.Properties.{paho_memory_error}
use mqtt_client.Protocol.References.{released}
use mqtt_client.SocketBuffer.{
  Iobuf, NewQueue, SocketBuffers, complete, get_queued_char, get_queued_data, get_write,
  interrupted, pending_write, queue_char, queue_of, socketbuffer_interrupted, write_of,
}
use mqtt_client.Transport.{socket_error, tcpsocket_complete, tcpsocket_interrupted}

-- What `recv` comes to: EAGAIN or EWOULDBLOCK, another `errno`, or bytes, none at the end of input.
pub data Received : Type 0 where
  would_block : Received
  failed : (errno : ℕ) → Received
  received : Bytes → Received

-- What `writev` comes to.
pub data Written : Type 0 where
  not_now : Written
  refused : Written
  written : ℕ → Written

-- The part of `mod_s` that reading and writing use, with the static variables of SocketBuffer.c.
pub record Sockets : Type 0 where
  pub buffers : SocketBuffers
  pub write_pending : List ℕ
  pub pending_wset : ℕ → Bool

abbrev pub eagain : ℕ
eagain = 11

module _ {N : Type 0} (recv : (s len : ℕ) → N → Received × N)
    (queue_memory : N → Bool × NewQueue) where
  -- The return code, the character and the new states.
  unfoldable pub socket_getch : (s : ℕ) → SocketBuffers → N → Run (ℤ × Option ℕ × SocketBuffers × N)
  socket_getch s st n = get_queued_char s st >>= λ (rc, c, st1).
      if rc ==ℤ socketbuffer_interrupted
      then (let (r, n1) = recv s 1 n in
          elim r [
            | would_block ↦ interrupted s 0 (queue_memory n1).0 (queue_memory n1).1 st1 >>= λ st2.
                done (tcpsocket_interrupted, none, st2, n1)
            | failed errno ↦ done (socket_error, none, st1, n1)
            | received bytes ↦ elim bytes [
              | [] ↦ done (socket_error, none, st1, n1)
              | c' ∷ _ ↦ queue_char s c' st1 >>= λ st2. done (tcpsocket_complete, some c', st2, n1)
            ]
          ])
      else done (rc, c, st1, n)

-- `memcpy` into a block at an offset, a fault outside it.
unfoldable pub write_at : Option Bytes → (offset : ℕ) → Bytes → Run Bytes
write_at none offset got = fault
write_at (some block) offset got =
    if leb (offset + length got) (length block)
    then done (take offset block ++ got ++ drop (offset + length got) block)
    else fault

-- The block that the socket's queue, or else the default queue, points at has new content.
unfoldable pub set_buf : ℕ → Bytes → SocketBuffers → SocketBuffers
set_buf s block st = elim (find_entry queue_of s st.queues) [
  | some q ↦ record st { queues = set_entry queue_of s (record q { buf = some block }) st.queues }
  | none ↦ elim st.def_queue [
    | none ↦ st
    | some q ↦ record st { def_queue = some (record q { buf = some block }) }
  ]
]

-- The returned buffer, `*actual_len`, `*rc` and the new states.
pub record Read (N : Type 0) : Type 0 where
  pub buffer : Option Bytes
  pub actual_len : ℕ
  pub rc : ℤ
  pub state : SocketBuffers
  pub network : N

module _ {N : Type 0} (recv : (s len : ℕ) → N → Received × N) (queue_memory : N → Bool × NewQueue)
    (block_memory : N → Option Bytes) where
  -- The end of `Socket_getdata`: the packet is complete, or its queue is kept.
  unfoldable pub finish_read :
      (s bytes actual_len : ℕ) → ℤ → Option Bytes → SocketBuffers → N → Run (Read N)
  finish_read s bytes actual_len rc buffer st n =
      (if actual_len == bytes
        then (complete s st >>= λ (b, st'). done st')
        else interrupted s actual_len (queue_memory n).0 (queue_memory n).1 st)
      >>= λ st'.
          done
            (record { buffer = buffer; actual_len = actual_len; rc = rc; state = st'; network = n })

  -- `len` and `rc` are what `*actual_len` and `*rc` held before.
  unfoldable pub socket_getdata : (s bytes len : ℕ) → (rc : ℤ) → SocketBuffers → N → Run (Read N)
  unfolding write_at set_buf finish_read
  socket_getdata s bytes len rc st n =
      if bytes == 0
      then (complete s st >>= λ (b, st').
          done (record { buffer = b; actual_len = len; rc = rc; state = st'; network = n }))
      else (get_queued_data s bytes (block_memory n) st >>= λ (b, held, st1).
          let (r, n1) = recv s (bytes - held) n in
          elim r [
            | would_block ↦ finish_read s bytes held (pos eagain) b st1 n1
            | failed errno ↦ done (record {
              buffer = none;
              actual_len = held;
              rc = pos errno;
              state = st1;
              network = n1;
            })
            | received got ↦
                if length got == 0
                then done (record {
                  buffer = none;
                  actual_len = held;
                  rc = pos 0;
                  state = st1;
                  network = n1;
                })
                else (write_at b held got >>= λ block.
                    finish_read s bytes (held + length got) (pos (length got)) (some block)
                      (set_buf s block st1) n1)
          ])

unfoldable pub listed : ℕ → List ℕ → Bool
listed s [] = false
listed s (x ∷ xs) = (x == s) || listed s xs

unfoldable pub socket_no_pending_writes : ℕ → Sockets → Bool
unfolding listed
socket_no_pending_writes s st = not (listed s st.write_pending)

-- The bytes that the buffers hold, in order, and their number.
unfoldable pub flatten : List Iobuf → Bytes
flatten [] = []
flatten (v ∷ vs) = take v.iov_len v.iov_base ++ flatten vs

unfoldable pub total_len : List Iobuf → ℕ
total_len [] = 0
total_len (v ∷ vs) = v.iov_len + total_len vs

unfoldable pub set_fd : ℕ → Bool → (ℕ → Bool) → ℕ → Bool
set_fd s b fds i = if i == s then b else fds i

module _ {N : Type 0} (writev : ℕ → List Iobuf → N → Written × N) where
  -- The return code, the number of bytes and the new state of the system.
  unfoldable pub socket_writev : ℕ → List Iobuf → N → ℤ × ℕ × N
  socket_writev s iovecs n =
      let (w, n1) = writev s iovecs n in
      elim w [
        | not_now ↦ (tcpsocket_interrupted, 0, n1)
        | refused ↦ (socket_error, 0, n1)
        | written k ↦ (pos k, k, n1)
      ]

  -- `bufs` are the buffers behind the first, with their flags. `sockmem`, `kept`, `in_writes` and `appended`
  -- say whether the calls of `malloc` gave memory: for the socket, and for the pending write and its
  -- elements of the two lists.
  unfoldable pub socket_putdatas :
      (sockmem kept in_writes appended : Bool) (s : ℕ)
      → Iobuf
      → List (Iobuf × Bool)
      → Sockets
      → N
      → Run (ℤ × Sockets × N)
  unfolding socket_no_pending_writes total_len socket_writev set_fd
  socket_putdatas sockmem kept in_writes appended s buf0 bufs st n =
      let iovecs = buf0 ∷ map (λ b. b.0) bufs in
      let frees = true ∷ map (λ b. b.1) bufs in
      if not (socket_no_pending_writes s st)
      then done (socket_error, st, n)
      else if ltb 5 (length iovecs)
      then fault
      else (let (rc, bytes, n1) = socket_writev s iovecs n in
          if rc ==ℤ socket_error
          then done (rc, st, n1)
          else if bytes == total_len iovecs
          then done (tcpsocket_complete, st, n1)
          else if not sockmem
          then done (paho_memory_error, st, n1)
          else (pending_write kept in_writes s iovecs frees (total_len iovecs) bytes st.buffers
              >>= λ (rc', buffers).
                  if not appended
                  then done (paho_memory_error, record st { buffers = buffers }, n1)
                  else done (
                    tcpsocket_interrupted,
                    record st {
                      buffers = buffers;
                      write_pending = st.write_pending ++ s ∷ [];
                      pending_wset = set_fd s true st.pending_wset;
                    },
                    n1,
                  )))

-- The buffers that are still to be written, when `bytes` have been: `cur` are those before `vs`.
unfoldable pub remaining : (bytes cur : ℕ) → List Iobuf → List Iobuf
remaining bytes cur [] = []
remaining bytes cur (v ∷ vs) =
    let rest = remaining bytes (cur + v.iov_len) vs in
    if leb bytes cur
    then v ∷ rest
    else if ltb bytes (cur + v.iov_len)
    then record { iov_base = drop (bytes - cur) v.iov_base; iov_len = v.iov_len - (bytes - cur) }
      ∷ rest
    else rest

-- The entry's buffers that are freed lose their address.
unfoldable pub freed_iovecs : List Bool → List Iobuf → List Iobuf
freed_iovecs [] vs = vs
freed_iovecs (f ∷ fs) [] = []
freed_iovecs (f ∷ fs) (v ∷ vs) =
    let rest = freed_iovecs fs vs in if f then record v { iov_base = [] } ∷ rest else v ∷ rest

module _ {N : Type 0} (writev : ℕ → List Iobuf → N → Written × N) where
  -- 1 when the write is complete, 0 when it is not, and SOCKET_ERROR; a missing entry is a fault.
  unfoldable pub socket_continue_write : ℕ → SocketBuffers → N → Run (ℤ × SocketBuffers × N)
  unfolding socket_writev remaining freed_iovecs
  socket_continue_write s st n = elim (get_write s st) [
    | none ↦ fault
    | some pw ↦
        let (rc, bytes, n1) = socket_writev writev s (remaining pw.bytes 0 pw.iovecs) n in
        let released = record pw { iovecs = freed_iovecs pw.frees pw.iovecs } in
        if rc ==ℤ socket_error
        then done (rc, record st { writes = set_entry write_of s released st.writes }, n1)
        else if pw.bytes + bytes == pw.total
        then done (
          pos 1,
          record st {
            writes = set_entry write_of s (record released { bytes = pw.bytes + bytes }) st.writes;
          },
          n1,
        )
        else done (
          pos 0,
          record st {
            writes = set_entry write_of s (record pw { bytes = pw.bytes + bytes }) st.writes;
          },
          n1,
        )
  ]
