-- ===== src/SocketBuffer/Consistent.antt =====
-- The operations as events, and the invariant that they keep.
use mathlib.Core.Path.{subst}
use mqtt_client.Entries.{
  Unique, append-Unique, drop-All, drop-Unique, find-All, find-key, find_entry, set-All, set-Unique,
  set_entry,
}
use mqtt_client.Prelude.{
  Bool, Bool-cases, List, Option, Option-cases, [], ap, arith, false, get_elem?-some, if◌then◌else◌,
  inl, inr, leb, length, ltb, lt→ltb, none, refl, set, some, suc, sym, true, zero, ℕ, ◌+◌, ◌<◌,
  ◌==◌, ◌∙◌, ◌∷◌, ◌≡◌, ◌≢◌, ◌≤◌,
}
use mqtt_client.Prelude.Predicates.{All, All-append, Bytes}
use mqtt_client.Prelude.Run.{Ends, Ends-inv, Run, done, done-injective, ends, ◌>>=◌}
use mqtt_client.SocketBuffer.{
  Iobuf, PendingWrite, SocketBuffers, SocketQueue, block_of_size, cleanup, cleanup_queues, complete,
  copy_block, get_queued_char, get_queued_data, grow, initialize, interrupted, new_def_q, new_queue,
  pending_write, queue_char, queue_of, redirect_write, reset_queue, store_char, update_write,
  with_room, write_complete, write_of,
}

-- One call by utils/Socket.c, with what `malloc` gives to it. Any call of `malloc` may fail but those
-- of `SocketBuffer_newDefQ` within `SocketBuffer_interrupted`, whose result the code drops.
pub data Operation : Type 0 where
  char_read : (s : ℕ) → Operation
  char_queued : (s c : ℕ) → Operation
  data_read : (s bytes : ℕ) (junk : Option Bytes) → Operation
  read_interrupted :
      (s actual_len : ℕ) (appended : Bool) → SocketQueue → (block : Bytes) → Operation
  read_completed : (s : ℕ) → Operation
  write_pended :
      (allocated appended : Bool) (s : ℕ) → List Iobuf → List Bool → (total bytes : ℕ) → Operation
  write_completed : (s : ℕ) → Operation
  write_updated : (s : ℕ) → (topic payload : Bytes) → Operation
  cleaned_up : (s : ℕ) → Operation

-- The state after the call.
unfoldable pub run : Operation → SocketBuffers → Run SocketBuffers
run (char_read s) st = get_queued_char s st >>= λ (rc, c, st'). done st'
run (char_queued s c) st = queue_char s c st
run (data_read s bytes junk) st = get_queued_data s bytes junk st >>= λ (b, n, st'). done st'
run (read_interrupted s actual_len appended q block) st =
    interrupted s actual_len appended (new_queue q block) st
run (read_completed s) st = complete s st >>= λ (b, st'). done st'
run (write_pended allocated appended s iovecs frees total bytes) st =
    pending_write allocated appended s iovecs frees total bytes st >>= λ (rc, st'). done st'
run (write_completed s) st = done (write_complete s st).1
run (write_updated s topic payload) st = done (update_write s topic payload st).1
run (cleaned_up s) st = cleanup s st

-- The length of the buffer that data of the socket are read into.
unfoldable pub buffer_of : ℕ → SocketBuffers → ℕ
buffer_of s st = elim (find_entry queue_of s st.queues) [
  | some q ↦ q.buflen
  | none ↦ elim st.def_queue [ none ↦ 0 | some q ↦ q.buflen ]
]

-- What utils/Socket.c sees to: descriptors of connections are not 0, what was read is within the
-- buffer, a write is kept only where none is pending (`Socket_putdatas`), of at most five buffers; and
-- a queue has room for five bytes.
unfoldable pub Allowed : Operation → SocketBuffers → Type 0
unfolding buffer_of
Allowed (char_queued s c) st = s ≢ 0
Allowed (read_interrupted s actual_len appended q block) st =
    (length q.fixed_header ≡ 5) × (actual_len ≤ buffer_of s st)
Allowed (write_pended allocated appended s iovecs frees total bytes) st =
    (find_entry write_of s st.writes ≡ none) × (length iovecs ≤ 5)
Allowed _ st = Unit

abbrev pub IsQueue : SocketQueue → Type 0
IsQueue q =
    (q.index ≤ q.headerlen)
    × (q.headerlen ≤ 5)
    × (length q.fixed_header ≡ 5)
    × (q.datalen ≤ q.buflen)

-- A default queue that is not in use is empty.
abbrev pub IsDefault : SocketQueue → Type 0
IsDefault q = IsQueue q × (q.socket ≡ 0 → (q.index ≡ 0) × (q.headerlen ≡ 0))

abbrev pub HasDefault : Option SocketQueue → Type 0
HasDefault none = ⊥
HasDefault (some q) = IsDefault q

pub record IsConsistent (st : SocketBuffers) : Type 0 where
  pub default : HasDefault st.def_queue
  pub queues : All IsQueue st.queues
  pub unique : Unique queue_of st.queues
  pub writes : Unique write_of st.writes

length-set : (xs : Bytes) (i v : ℕ) → length (set xs i v) ≡ length xs
length-set [] i v = refl
length-set (x ∷ xs) zero v = refl
length-set (x ∷ xs) (suc i) v = ap suc (length-set xs i v)

pub store_char-IsQueue :
    (c : ℕ) (q : SocketQueue)
    → IsQueue q
    → (q' : SocketQueue) × (store_char c q ≡ done q') × IsQueue q' × (q'.socket ≡ q.socket)
unfolding store_char
store_char-IsQueue c q (a, b, l, f) = elim (Bool-cases (ltb 4 q.index)) [
  | inl full ↦ (q, rw full refl, (a, b, l, f), refl)
  | inr room ↦ (
    record q {
      fixed_header = set q.fixed_header q.index c;
      index = q.index + 1;
      headerlen = q.index + 1;
    },
    rw (room, lt→ltb q.index (length q.fixed_header) (ground arith)) refl,
    (omega arith, ground arith, length-set q.fixed_header q.index c ∙ l, f),
    refl,
  )
]

-- Equal but for the buffer.
abbrev pub SameHeader : SocketQueue → SocketQueue → Type 0
SameHeader q' q =
    (q'.index ≡ q.index)
    × (q'.headerlen ≡ q.headerlen)
    × (q'.fixed_header ≡ q.fixed_header)
    × (q'.socket ≡ q.socket)

length-block_of_size : (n : ℕ) (junk : Bytes) → length (block_of_size n junk) ≡ n
unfolding block_of_size
length-block_of_size zero junk = refl
length-block_of_size (suc n) [] = ap suc (length-block_of_size n [])
length-block_of_size (suc n) (x ∷ junk) = ap suc (length-block_of_size n junk)

-- The `memcpy` of a queue that grows stays within the new block.
grow-IsQueue :
    (bytes : ℕ) (junk : Option Bytes) (q : SocketQueue)
    → IsQueue q
    → q.buflen < bytes
    → Ends (λ q'. SameHeader q' q × IsQueue q') (grow bytes junk q)
unfolding grow copy_block
grow-IsQueue bytes none q (a, b, l, f) small = elim (Bool-cases (ltb 0 q.datalen)) [
  | inl held ↦ rw held (ends ((refl, refl, refl, refl), (a, b, l, f)))
  | inr free ↦ rw free (ends ((refl, refl, refl, refl), (a, b, l, ground arith)))
]
grow-IsQueue bytes (some junk) q (a, b, l, f) small = elim (Bool-cases (ltb 0 q.datalen)) [
  | inl held ↦
      let fits : leb q.datalen (length (block_of_size bytes junk)) ≡ true =
        ground (arith, length-block_of_size bytes junk) in
      rw (held, fits) (ends ((refl, refl, refl, refl), (a, b, l, omega arith)))
  | inr free ↦ rw free (ends ((refl, refl, refl, refl), (a, b, l, ground arith)))
]

room-IsQueue :
    (bytes : ℕ) (junk : Option Bytes) (q : SocketQueue)
    → IsQueue q
    → Ends (λ q'. SameHeader q' q × IsQueue q') (with_room bytes junk q)
unfolding with_room
room-IsQueue bytes junk q h = elim (Bool-cases (ltb q.buflen bytes)) [
  | inl small ↦ rw small (grow-IsQueue bytes junk q h (ground arith))
  | inr large ↦ rw large (ends ((refl, refl, refl, refl), h))
]

SameHeader-IsDefault :
    (q' q : SocketQueue) → SameHeader q' q → IsQueue q' → IsDefault q → IsDefault q'
SameHeader-IsDefault q' q same h' h = (h', λ e. ground (arith, same, h.1))

reset-IsDefault : (q : SocketQueue) → IsQueue q → IsDefault (reset_queue q)
reset-IsDefault q (a, b, l, f) = ((omega arith, omega arith, l, omega arith), λ e. (refl, refl))

redirect_write-socket :
    (topic payload : Bytes) (w : PendingWrite) → (redirect_write topic payload w).socket ≡ w.socket
unfolding redirect_write
redirect_write-socket topic payload w = elim (Bool-cases (w.count == 4)) [
  | inl four ↦ rw four refl
  | inr other ↦ rw other refl
]

pub ==_self : (n : ℕ) → (n == n) ≡ true
==_self n = ground arith

pub le→leb : (a b : ℕ) → a ≤ b → leb a b ≡ true
le→leb a b h = ground arith

Ends-map :
    {A : Type 0} (f : A → SocketBuffers) {r : Run A}
    → Ends (λ a. IsConsistent (f a)) r
    → Ends IsConsistent (r >>= λ a. done (f a))
Ends-map f (ends p) = ends p

module _ (st : SocketBuffers) (is : IsConsistent st) where
  set-IsConsistent :
      (s : ℕ) (q : SocketQueue)
      → q.socket ≡ s
      → IsQueue q
      → IsConsistent (record st { queues = set_entry queue_of s q st.queues })
  set-IsConsistent s q k h = record {
    default = is.default;
    queues = set-All queue_of IsQueue s q st.queues h is.queues;
    unique = set-Unique queue_of s q st.queues k is.unique;
    writes = is.writes;
  }

  default-IsConsistent :
      (d : SocketQueue) → IsDefault d → IsConsistent (record st { def_queue = some d })
  default-IsConsistent d h = record {
    default = h;
    queues = is.queues;
    unique = is.unique;
    writes = is.writes;
  }

  -- There is a default queue.
  HasDefault-find : (d : SocketQueue) × (st.def_queue ≡ some d) × IsDefault d
  HasDefault-find = find st.def_queue is.default
    where
      find :
          (o : Option SocketQueue) → HasDefault o → (d : SocketQueue) × (o ≡ some d) × IsDefault d
      find none h = absurd h
      find (some d) h = (d, refl, h)

  default_parts :
      (d : SocketQueue) × (st.def_queue ≡ some d)
      × IsQueue d
      × (d.socket ≡ 0 → (d.index ≡ 0) × (d.headerlen ≡ 0))
  default_parts = let (d, here, h) = HasDefault-find in (d, here, h.0, h.1)

  get_queued_char-IsConsistent :
      (s : ℕ) → Ends (λ (rc, c, st'). IsConsistent st') (get_queued_char s st)
  unfolding get_queued_char
  get_queued_char-IsConsistent s = elim (Option-cases (find_entry queue_of s st.queues)) [
    | inl missing ↦ rw (get_queued_char, missing) (ends is)
    | inr (q, found) ↦
        let (a, b, l, f) = find-All queue_of IsQueue s st.queues q is.queues found in
        let k = find-key queue_of s st.queues q found in
        elim (Bool-cases (ltb q.index q.headerlen)) [
          | inl more ↦
              let (c, there) = get_elem?-some q.fixed_header q.index (ground arith) in
              rw (get_queued_char, found, more, there)
                (ends
                  (set-IsConsistent s (record q { index = q.index + 1 }) k (ground arith, b, l, f)))
          | inr end ↦ rw (get_queued_char, found, end) (ends is)
        ]
  ]

  queue_char-IsConsistent : (s c : ℕ) → s ≢ 0 → Ends IsConsistent (queue_char s c st)
  unfolding queue_char
  queue_char-IsConsistent s c real = elim (Option-cases (find_entry queue_of s st.queues)) [
    | inl missing ↦
        let (d, here, h, unused) = default_parts in
        elim (Bool-cases (d.socket == 0)) [
          | inl free ↦
              let d' = record d { socket = s; index = 0; datalen = 0 } in
              let (q', stored, h', same) =
                store_char-IsQueue c d' (omega arith, h.1, h.2, omega arith) in
              rw (queue_char, missing, here, free, ==_self s, stored)
                (ends (default-IsConsistent q' (h', λ e. absurd (ground arith))))
          | inr taken ↦ elim (Bool-cases (d.socket == s)) [
            | inl mine ↦
                let (q', stored, h', same) = store_char-IsQueue c d h in
                rw (queue_char, missing, here, taken, mine, stored)
                  (ends (default-IsConsistent q' (h', λ e. absurd (ground arith))))
            | inr other ↦
                rw (queue_char, missing, here, taken, other)
                  (ends (default-IsConsistent d (h, unused)))
          ]
        ]
    | inr (q, found) ↦
        let (q', stored, h, same) =
          store_char-IsQueue c q (find-All queue_of IsQueue s st.queues q is.queues found) in
        rw (queue_char, found, stored)
          (ends (set-IsConsistent s q' (same ∙ find-key queue_of s st.queues q found) h))
  ]

  get_queued_data-IsConsistent :
      (s bytes : ℕ) (junk : Option Bytes)
      → Ends (λ (b, n, st'). IsConsistent st') (get_queued_data s bytes junk st)
  unfolding get_queued_data
  get_queued_data-IsConsistent s bytes junk =
      elim (Option-cases (find_entry queue_of s st.queues)) [
        | inl missing ↦
            let (d, here, h) = HasDefault-find in
            let (d', ran, (same, h')) = Ends-inv (room-IsQueue bytes junk d h.0) in
            rw (get_queued_data, missing, here, ran)
              (ends (default-IsConsistent d' (SameHeader-IsDefault d' d same h' h)))
        | inr (q, found) ↦
            let (q', ran, (same, h')) = Ends-inv (
              room-IsQueue bytes junk q
                (find-All queue_of IsQueue s st.queues q is.queues found)) in
            rw (get_queued_data, found, ran)
              (ends (set-IsConsistent s q' (same.3 ∙ find-key queue_of s st.queues q found) h'))
      ]

  interrupted-IsConsistent :
      (s n : ℕ) (appended : Bool) (q : SocketQueue) (block : Bytes)
      → length q.fixed_header ≡ 5
      → n ≤ buffer_of s st
      → Ends IsConsistent (interrupted s n appended (new_queue q block) st)
  unfolding interrupted new_def_q buffer_of
  interrupted-IsConsistent s n appended q block room fits =
      elim (Option-cases (find_entry queue_of s st.queues)) [
        | inl missing ↦
            let (d, here, (a, b, l, f), unused) = default_parts in
            let fits' : n ≤ d.buflen = rw (buffer_of, missing, here) at fits in
            let fresh_default : IsDefault (record q {
              socket = 0;
              index = 0;
              buflen = 0;
              datalen = 0;
              headerlen = 0;
              buf = some block;
            }) =
              ((omega arith, omega arith, room, omega arith), λ e. (refl, refl)) in
            elim (Bool-cases appended) [
              | inl given ↦
                  rw (interrupted, missing, here, given)
                    (ends (record {
                      default = fresh_default;
                      queues =
                          All-append IsQueue st.queues _ is.queues ((omega arith, b, l, fits'), tt);
                      unique = append-Unique queue_of st.queues _ is.unique missing;
                      writes = is.writes;
                    }))
              | inr lost ↦
                  rw (interrupted, missing, here, lost)
                    (ends (record {
                      default = fresh_default;
                      queues = is.queues;
                      unique = is.unique;
                      writes = is.writes;
                    }))
            ]
        | inr (p, found) ↦
            let (a, b, l, f) = find-All queue_of IsQueue s st.queues p is.queues found in
            let fits' : n ≤ p.buflen = rw (buffer_of, found) at fits in
            rw (interrupted, found)
              (ends (
                set-IsConsistent s (record p { index = 0; datalen = n })
                  (find-key queue_of s st.queues p found) (omega arith, b, l, fits')))
      ]

  complete-IsConsistent : (s : ℕ) → Ends (λ (b, st'). IsConsistent st') (complete s st)
  unfolding complete
  complete-IsConsistent s =
      let (d, here, h) = HasDefault-find in
      elim (Option-cases (find_entry queue_of s st.queues)) [
        | inl missing ↦
            rw (complete, here, missing)
              (ends (default-IsConsistent (reset_queue d) (reset-IsDefault d h.0)))
        | inr (q, found) ↦
            rw (complete, here, found)
              (ends (record {
                default =
                    reset-IsDefault q (find-All queue_of IsQueue s st.queues q is.queues found);
                queues = drop-All queue_of IsQueue s st.queues is.queues;
                unique = drop-Unique queue_of s st.queues is.unique;
                writes = is.writes;
              }))
      ]

  write_complete-IsConsistent : (s : ℕ) → IsConsistent (write_complete s st).1
  unfolding write_complete
  write_complete-IsConsistent s = elim (Option-cases (find_entry write_of s st.writes)) [
    | inl missing ↦ rw (write_complete, missing) is
    | inr (w, found) ↦
        rw (write_complete, found)
          (record {
            default = is.default;
            queues = is.queues;
            unique = is.unique;
            writes = drop-Unique write_of s st.writes is.writes;
          })
  ]

  pending_write-IsConsistent :
      (allocated appended : Bool) (s : ℕ) (iovecs : List Iobuf) (frees : List Bool)
      (total bytes : ℕ)
      → find_entry write_of s st.writes ≡ none
      → length iovecs ≤ 5
      → Ends
          (λ (rc, st'). IsConsistent st')
          (pending_write allocated appended s iovecs frees total bytes st)
  unfolding pending_write
  pending_write-IsConsistent false appended s iovecs frees total bytes missing fits = ends is
  pending_write-IsConsistent true false s iovecs frees total bytes missing fits =
      rw (le→leb (length iovecs) 5 fits) (ends is)
  pending_write-IsConsistent true true s iovecs frees total bytes missing fits =
      rw (le→leb (length iovecs) 5 fits) (
        ends (record {
          default = is.default;
          queues = is.queues;
          unique = is.unique;
          writes = append-Unique write_of st.writes _ is.writes missing;
        }))

  update_write-IsConsistent :
      (s : ℕ) (topic payload : Bytes) → IsConsistent (update_write s topic payload st).1
  unfolding update_write
  update_write-IsConsistent s topic payload =
      elim (Option-cases (find_entry write_of s st.writes)) [
        | inl missing ↦ rw (update_write, missing) is
        | inr (w, found) ↦
            rw (update_write, found)
              (record {
                default = is.default;
                queues = is.queues;
                unique = is.unique;
                writes =
                    set-Unique write_of s (redirect_write topic payload w) st.writes
                      (redirect_write-socket topic payload w
                        ∙ find-key write_of s st.writes w found)
                      is.writes;
              })
      ]

  cleanup_queues-IsConsistent : (s : ℕ) → Ends IsConsistent (cleanup_queues s st)
  unfolding cleanup_queues
  cleanup_queues-IsConsistent s =
      let (d, here, h) = HasDefault-find in
      rw (cleanup_queues, here)
        (ends (record {
          default = reset_if d h s;
          queues = drop-All queue_of IsQueue s st.queues is.queues;
          unique = drop-Unique queue_of s st.queues is.unique;
          writes = is.writes;
        }))
    where
      reset_if :
          (d : SocketQueue)
          → IsDefault d
          → (s : ℕ) → IsDefault (if d.socket == s then reset_queue d else d)
      reset_if d h s = elim (Bool-cases (d.socket == s)) [
        | inl mine ↦ rw mine (reset-IsDefault d h.0)
        | inr other ↦ rw other h
      ]

-- From a consistent state no operation that utils/Socket.c may call leaves defined behaviour, and the
-- next state is consistent: no index runs out of a header field, and no socket has two entries.
pub run-IsConsistent :
    (o : Operation) (st : SocketBuffers)
    → IsConsistent st
    → Allowed o st
    → Ends IsConsistent (run o st)
unfolding run Allowed cleanup
run-IsConsistent (char_read s) st is ok = Ends-map (λ r. r.2) (get_queued_char-IsConsistent st is s)
run-IsConsistent (char_queued s c) st is ok = queue_char-IsConsistent st is s c ok
run-IsConsistent (data_read s bytes junk) st is ok =
    Ends-map (λ r. r.2) (get_queued_data-IsConsistent st is s bytes junk)
run-IsConsistent (read_interrupted s n appended q block) st is (room, fits) =
    interrupted-IsConsistent st is s n appended q block room fits
run-IsConsistent (read_completed s) st is ok = Ends-map (λ r. r.1) (complete-IsConsistent st is s)
run-IsConsistent (write_pended allocated appended s iovecs frees total bytes) st is
      (missing, fits) =
    Ends-map (λ r. r.1)
      (pending_write-IsConsistent st is allocated appended s iovecs frees total bytes missing fits)
run-IsConsistent (write_completed s) st is ok = ends (write_complete-IsConsistent st is s)
run-IsConsistent (write_updated s topic payload) st is ok =
    ends (update_write-IsConsistent st is s topic payload)
run-IsConsistent (cleaned_up s) st is ok =
    cleanup_queues-IsConsistent (write_complete s st).1 (write_complete-IsConsistent st is s) s

-- What a sequence of operations leads to, each where it is allowed.
pub data Reach (st : SocketBuffers) : SocketBuffers → Type 0 where
  start : Reach st st
  onward :
      {t u : SocketBuffers} (o : Operation)
      → Reach st t
      → Allowed o t
      → run o t ≡ done u
      → Reach st u

Reach-IsConsistent : {st t : SocketBuffers} → IsConsistent st → Reach st t → IsConsistent t
Reach-IsConsistent is start = is
Reach-IsConsistent is (onward {t} o r ok e) =
    let (u, e', h) = Ends-inv (run-IsConsistent o t (Reach-IsConsistent is r) ok) in
    subst IsConsistent (done-injective (sym e' ∙ e)) h

-- After a `SocketBuffer_initialize` that succeeds, every state that a sequence of allowed operations
-- comes to is consistent, and an operation that is allowed there ends, without a fault, in a consistent
-- state. The condition is that each call of `SocketBuffer_newDefQ` on the way gets its memory; all
-- other memory may be refused: that of a list's element, of a pending write, and of a larger buffer.
-- Allowed are descriptors other than 0 for a character, reads of no more than the buffer holds, and
-- writes of at most five buffers where none is pending.
pub initialize-Reach-IsConsistent :
    (q : SocketQueue) (block : Bytes) {t : SocketBuffers} (o : Operation)
    → length q.fixed_header ≡ 5
    → Reach (initialize (new_queue q block) true).1 t
    → Allowed o t
    → IsConsistent t × Ends IsConsistent (run o t)
unfolding initialize
initialize-Reach-IsConsistent q block {t} o room r ok =
    let is : IsConsistent t =
      Reach-IsConsistent
        (record {
          default = ((omega arith, omega arith, room, omega arith), λ e. (refl, refl));
          queues = tt;
          unique = tt;
          writes = tt;
        })
        r in
    (is, run-IsConsistent o t is ok)
