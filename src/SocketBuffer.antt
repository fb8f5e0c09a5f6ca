-- ===== src/SocketBuffer.antt =====
-- src/utils/SocketBuffer.c: what one socket has read of a packet that is not complete, and what is
-- left of a packet that could not be written at once. The lists of queues and of pending writes hold
-- at most one entry for a socket, so a search by socket has one answer wherever the cursor is. A
-- socket is its descriptor, and what `malloc` returns is an argument.
mod Runs
pub mod Consistent
use mqtt_client.Entries.{drop_entry, find_entry, set_entry}
use mqtt_client.Prelude.{
  Bool, List, Option, [], drop, false, get_elem?, if◌then◌else◌, leb, length, ltb, none, not, set,
  some, suc, take, true, zero, ℕ, ◌&&◌, ◌++◌, ◌+◌, ◌==◌, ◌∷◌,
}
use mqtt_client.Prelude.Int.{negsuc, pos, ℤ, ◌==ℤ◌}
use mqtt_client.Prelude.Predicates.{Bytes}
use mqtt_client.Prelude.Run.{Run, done, fault, ◌>>=◌}
use mqtt_client.Properties.{paho_memory_error}
use mqtt_client.Transport.{socket_error}

abbrev pub socketbuffer_complete : ℤ
socketbuffer_complete = pos 0

abbrev pub socketbuffer_interrupted : ℤ
socketbuffer_interrupted = negsuc 21

-- `buf` is `none` for `NULL`, and else the bytes of the block that it points at.
pub record SocketQueue : Type 0 where
  pub socket : ℕ
  pub index : ℕ
  pub headerlen : ℕ
  pub fixed_header : Bytes
  pub buflen : ℕ
  pub datalen : ℕ
  pub buf : Option Bytes

pub record Iobuf : Type 0 where
  pub iov_base : Bytes
  pub iov_len : ℕ

pub record PendingWrite : Type 0 where
  pub socket : ℕ
  pub count : ℕ
  pub total : ℕ
  pub bytes : ℕ
  pub iovecs : List Iobuf
  pub frees : List Bool

-- The static variables; `def_queue` is `none` for `NULL`.
pub record SocketBuffers : Type 0 where
  pub def_queue : Option SocketQueue
  pub queues : List SocketQueue
  pub writes : List PendingWrite

abbrev pub queue_of : SocketQueue → ℕ
queue_of q = q.socket

abbrev pub write_of : PendingWrite → ℕ
write_of w = w.socket

-- What the two calls of `malloc` give to `SocketBuffer_newDefQ`: no queue; a queue, with what it
-- happens to hold, and no buffer; or both.
pub data NewQueue : Type 0 where
  no_queue : NewQueue
  no_buffer : SocketQueue → NewQueue
  new_queue : SocketQueue → Bytes → NewQueue

unfoldable pub new_def_q : NewQueue → ℤ × Option SocketQueue
new_def_q no_queue = (paho_memory_error, none)
new_def_q (no_buffer q) = (paho_memory_error, some (record q { buflen = 1000; buf = none }))
new_def_q (new_queue q block) = (
  pos 0,
  some (record q {
    socket = 0;
    index = 0;
    buflen = 0;
    datalen = 0;
    headerlen = 0;
    buf = some block;
  }),
)

-- `queues` is `none` where the list could not be allocated.
unfoldable pub initialize : NewQueue → (list_given : Bool) → ℤ × SocketBuffers
unfolding new_def_q
initialize m list_given =
    let (rc, q) = new_def_q m in
    (
      if rc ==ℤ pos 0 then (if list_given then pos 0 else paho_memory_error) else rc,
      record { def_queue = q; queues = []; writes = [] },
    )

-- The header, index and lengths of a queue start again.
abbrev pub reset_queue : SocketQueue → SocketQueue
reset_queue q = record q { socket = 0; index = 0; headerlen = 0; datalen = 0 }

unfoldable pub write_complete : ℕ → SocketBuffers → Bool × SocketBuffers
write_complete s st = elim (find_entry write_of s st.writes) [
  | none ↦ (false, st)
  | some w ↦ (true, record st { writes = drop_entry write_of s st.writes })
]

-- The queue of the socket goes, and the default queue starts again if it is the socket's.
unfoldable pub cleanup_queues : ℕ → SocketBuffers → Run SocketBuffers
cleanup_queues s st = elim st.def_queue [
  | none ↦ fault
  | some q ↦ done (record st {
    def_queue = some (if q.socket == s then reset_queue q else q);
    queues = drop_entry queue_of s st.queues;
  })
]

unfoldable pub cleanup : ℕ → SocketBuffers → Run SocketBuffers
unfolding write_complete cleanup_queues
cleanup s st = cleanup_queues s (write_complete s st).1

abbrev bytes_of : Option Bytes → Bytes
bytes_of none = []
bytes_of (some block) = block

-- The block of `n` bytes that `malloc` gives, with what the memory happens to hold.
unfoldable pub block_of_size : (n : ℕ) → (junk : Bytes) → Bytes
block_of_size zero junk = []
block_of_size (suc n) [] = 0 ∷ block_of_size n []
block_of_size (suc n) (x ∷ junk) = x ∷ block_of_size n junk

-- The block of `n` bytes that `realloc` gives: the old bytes as far as there is room, and behind them
-- new memory.
unfoldable pub realloc : Option Bytes → (n : ℕ) → (junk : Bytes) → Bytes
unfolding block_of_size
realloc none n junk = block_of_size n junk
realloc (some old) n junk = take n old ++ drop (length old) (block_of_size n junk)

-- `memcpy` of `n` bytes from the start of `src` to the start of `dest`, a fault outside of either.
unfoldable pub copy_block : (dest src : Bytes) (n : ℕ) → Run Bytes
copy_block dest src n =
    if leb n (length src) && leb n (length dest) then done (take n src ++ drop n dest) else fault

-- The buffer with room for `bytes`; `junk` is what the new memory holds, if there is any. Where there
-- is data, `queue->buf` is the new block already when `memcpy` reads from it.
unfoldable pub grow : ℕ → (junk : Option Bytes) → SocketQueue → Run SocketQueue
unfolding realloc copy_block
grow bytes none q =
    if ltb 0 q.datalen
    then done (record q { buf = none })
    else done (record q { buf = none; buflen = bytes })
grow bytes (some junk) q =
    if ltb 0 q.datalen
    then (let newmem = block_of_size bytes junk in
        let moved = record q { buf = some newmem } in
        copy_block newmem (bytes_of moved.buf) q.datalen >>= λ block.
        done (record moved { buf = some block; buflen = bytes }))
    else done (record q { buf = some (realloc q.buf bytes junk); buflen = bytes })

-- Room for `bytes`, where there is none yet.
unfoldable pub with_room : ℕ → (junk : Option Bytes) → SocketQueue → Run SocketQueue
unfolding grow
with_room bytes junk q =
    let grown = grow bytes junk q in if ltb q.buflen bytes then grown else done q

-- The buffer, the length of the data in it and the new state.
unfoldable pub get_queued_data :
    ℕ → (bytes : ℕ) → (junk : Option Bytes) → SocketBuffers → Run (Option Bytes × ℕ × SocketBuffers)
unfolding with_room
get_queued_data s bytes junk st = elim (find_entry queue_of s st.queues) [
  | some q ↦ with_room bytes junk q >>= λ q'.
      done (q'.buf, q.datalen, record st { queues = set_entry queue_of s q' st.queues })
  | none ↦ elim st.def_queue [
    | none ↦ fault
    | some q ↦ with_room bytes junk q >>= λ q'. done (q'.buf, 0, record st { def_queue = some q' })
  ]
]

-- The return code, the character and the new state.
unfoldable pub get_queued_char : ℕ → SocketBuffers → Run (ℤ × Option ℕ × SocketBuffers)
get_queued_char s st = elim (find_entry queue_of s st.queues) [
  | none ↦ done (socketbuffer_interrupted, none, st)
  | some q ↦
      if ltb q.index q.headerlen
      then elim (get_elem? q.fixed_header q.index) [
        | none ↦ fault
        | some c ↦ done (
          socketbuffer_complete,
          some c,
          record st { queues = set_entry queue_of s (record q { index = q.index + 1 }) st.queues },
        )
      ]
      else done (if ltb 4 q.index then socket_error else socketbuffer_interrupted, none, st)
]

-- `appended`: whether `ListAppend` got its element; without one, the queue that was the default one
-- is lost.
unfoldable pub interrupted :
    ℕ → (actual_len : ℕ) → (appended : Bool) → NewQueue → SocketBuffers → Run SocketBuffers
unfolding new_def_q
interrupted s actual_len appended m st = elim (find_entry queue_of s st.queues) [
  | some q ↦ done (record st {
    queues = set_entry queue_of s (record q { index = 0; datalen = actual_len }) st.queues;
  })
  | none ↦ elim st.def_queue [
    | none ↦ fault
    | some q ↦ done (record st {
      queues =
          if appended
          then st.queues ++ record q { socket = s; index = 0; datalen = actual_len } ∷ []
          else st.queues;
      def_queue = (new_def_q m).1;
    })
  ]
]

-- `SocketBuffer_complete`: the returned buffer and the new state. The default queue is freed when
-- the socket's queue takes its place.
unfoldable pub complete : ℕ → SocketBuffers → Run (Option Bytes × SocketBuffers)
complete s st = elim st.def_queue [
  | none ↦ fault
  | some d ↦ elim (find_entry queue_of s st.queues) [
    | some q ↦ done (
      q.buf,
      record st { def_queue = some (reset_queue q); queues = drop_entry queue_of s st.queues },
    )
    | none ↦ done (d.buf, record st { def_queue = some (reset_queue d) })
  ]
]

-- The character at the queue's index, unless the field is full; a write outside it is a fault.
unfoldable pub store_char : ℕ → SocketQueue → Run SocketQueue
store_char c q =
    if ltb 4 q.index
    then done q
    else if ltb q.index (length q.fixed_header)
    then done (record q {
      fixed_header = set q.fixed_header q.index c;
      index = q.index + 1;
      headerlen = q.index + 1;
    })
    else fault

unfoldable pub queue_char : ℕ → ℕ → SocketBuffers → Run SocketBuffers
unfolding store_char
queue_char s c st = elim (find_entry queue_of s st.queues) [
  | some q ↦
      store_char c q >>= λ q'. done (record st { queues = set_entry queue_of s q' st.queues })
  | none ↦ elim st.def_queue [
    | none ↦ fault
    | some d ↦
        let d' = if d.socket == 0 then record d { socket = s; index = 0; datalen = 0 } else d in
        (if d'.socket == s then store_char c d' else done d) >>= λ q'.
        done (record st { def_queue = some q' })
  ]
]

abbrev pub pending_entry : ℕ → List Iobuf → List Bool → (total bytes : ℕ) → PendingWrite
pending_entry s iovecs frees total bytes = record {
  socket = s;
  count = length iovecs;
  total = total;
  bytes = bytes;
  iovecs = iovecs;
  frees = frees;
}

-- `allocated`: whether `malloc` gave the structure. `appended`: whether `ListAppend` got its element;
-- without one, the entry is lost, and the result is 0 all the same.
unfoldable pub pending_write :
    (allocated appended : Bool)
    → ℕ
    → List Iobuf
    → List Bool
    → (total bytes : ℕ) → SocketBuffers
    → Run (ℤ × SocketBuffers)
pending_write allocated appended s iovecs frees total bytes st =
    if not allocated
    then done (paho_memory_error, st)
    else if leb (length iovecs) 5
    then done (
      pos 0,
      if appended
          then record st { writes = st.writes ++ pending_entry s iovecs frees total bytes ∷ [] }
          else st,
    )
    else fault

unfoldable pub get_write : ℕ → SocketBuffers → Option PendingWrite
get_write s st = find_entry write_of s st.writes

unfoldable pub rebase : ℕ → Bytes → List Iobuf → List Iobuf
rebase i b [] = []
rebase zero b (v ∷ vs) = record v { iov_base = b } ∷ vs
rebase (suc i) b (v ∷ vs) = v ∷ rebase i b vs

-- The buffers 2 and 3 of a write of four buffers become the topic and the payload.
unfoldable pub redirect_write : Bytes → Bytes → PendingWrite → PendingWrite
unfolding rebase
redirect_write topic payload w =
    if w.count == 4 then record w { iovecs = rebase 3 payload (rebase 2 topic w.iovecs) } else w

unfoldable pub update_write :
    ℕ → Bytes → Bytes → SocketBuffers → Option PendingWrite × SocketBuffers
unfolding redirect_write
update_write s topic payload st = elim (find_entry write_of s st.writes) [
  | none ↦ (none, st)
  | some w ↦
      let w' = redirect_write topic payload w in
      (some w', record st { writes = set_entry write_of s w' st.writes })
]
