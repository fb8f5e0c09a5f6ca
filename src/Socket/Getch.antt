-- ===== src/Socket/Getch.antt =====
-- Reading the fixed header of a packet by `Socket_getch`: what was read before an interruption is
-- read again from the socket's queue, so the caller can start from the beginning.
use mqtt_client.Entries.{find-append, find-key, find-set, find_entry, set_entry}
use mqtt_client.Prelude.{
  List, Option, [], ap, arith, false, get_elem?, length, length-append, ltb, lt→ltb, none, refl,
  set, some, suc, true, zero, ℕ, ◌++◌, ◌+◌, ◌<◌, ◌==◌, ◌∙◌, ◌∷◌, ◌≡◌, ◌≢◌,
}
use mqtt_client.Prelude.Predicates.{Bytes}
use mqtt_client.Prelude.Run.{done}
use mqtt_client.Properties.Entry.{stored}
use mqtt_client.Socket.{Received, received, socket_getch, would_block}
use mqtt_client.SocketBuffer.{
  NewQueue, SocketBuffers, SocketQueue, get_queued_char, interrupted, new_def_q, queue_char,
  queue_of, store_char,
}
use mqtt_client.SocketBuffer.Consistent.{==_self}
use mqtt_client.Transport.{tcpsocket_complete, tcpsocket_interrupted}

-- The network of one connection: a byte that has come, or `none` where none has come yet.
abbrev pub Arrivals : Type 0
Arrivals = List (Option ℕ)

-- All bytes of a network, and the `recv` of one byte on it. A silent network blocks.
abbrev pub arriving : Arrivals → Bytes
arriving [] = []
arriving (none ∷ n) = arriving n
arriving (some c ∷ n) = c ∷ arriving n

abbrev pub recv_one : (s len : ℕ) → Arrivals → Received × Arrivals
recv_one s len [] = (would_block, [])
recv_one s len (none ∷ n) = (would_block, n)
recv_one s len (some c ∷ n) = (received (c ∷ []), n)

-- The queue `q` holds the bytes `cs` of a header, and the next to be read is the one at `i`.
pub record Holds (q : SocketQueue) (cs : Bytes) (i : ℕ) : Type 0 where
  pub room : Bytes
  pub header : q.fixed_header ≡ cs ++ room
  pub headerlen : q.headerlen ≡ length cs
  pub index : q.index ≡ i
  pub size : length cs + length room ≡ 5

-- The bytes `cs` of the header of the packet that `s` is reading are in the socket's queue, or in
-- the default queue.
pub data Held (s : ℕ) (st : SocketBuffers) (cs : Bytes) (i : ℕ) : Type 0 where
  saved :
      (q : SocketQueue) → find_entry queue_of s st.queues ≡ some q → Holds q cs i → Held s st cs i
  current :
      (d : SocketQueue)
      → find_entry queue_of s st.queues ≡ none
      → st.def_queue ≡ some d
      → d.socket ≡ s
      → Holds d cs i
      → i ≡ length cs
      → Held s st cs i
  untouched :
      (d : SocketQueue)
      → find_entry queue_of s st.queues ≡ none
      → st.def_queue ≡ some d
      → d.socket ≡ 0
      → d.headerlen ≡ 0
      → length d.fixed_header ≡ 5
      → cs ≡ []
      → i ≡ 0
      → Held s st cs i

set-append :
    (cs room : Bytes) (r c : ℕ) → set (cs ++ r ∷ room) (length cs) c ≡ (cs ++ c ∷ []) ++ room
set-append [] room r c = refl
set-append (x ∷ cs) room r c = ap (λ (l : Bytes). x ∷ l) (set-append cs room r c)

get_elem?-append :
    (cs room : Bytes) (i c : ℕ) → get_elem? cs i ≡ some c → get_elem? (cs ++ room) i ≡ some c
get_elem?-append [] room i c h = cc
get_elem?-append (x ∷ cs) room zero c h = h
get_elem?-append (x ∷ cs) room (suc i) c h = get_elem?-append cs room i c h

get_elem?-lt : (cs : Bytes) (i c : ℕ) → get_elem? cs i ≡ some c → i < length cs
get_elem?-lt [] i c h = cc
get_elem?-lt (x ∷ cs) zero c h = omega arith
get_elem?-lt (x ∷ cs) (suc i) c h = omega (arith, get_elem?-lt cs i c h)

store_char-Holds :
    (q : SocketQueue) (cs : Bytes) (c : ℕ)
    → Holds q cs (length cs)
    → length cs < 5
    → (q' : SocketQueue) × (store_char c q ≡ done q')
      × Holds q' (cs ++ c ∷ []) (suc (length cs))
      × (q'.socket ≡ q.socket)
unfolding store_char
store_char-Holds q cs c h more = by_room h.room h.header h.size
  where
    by_room :
        (room : Bytes)
        → q.fixed_header ≡ cs ++ room
        → length cs + length room ≡ 5
        → (q' : SocketQueue) × (store_char c q ≡ done q')
          × Holds q' (cs ++ c ∷ []) (suc (length cs))
          × (q'.socket ≡ q.socket)
    by_room [] header size = absurd (omega arith)
    by_room (r ∷ room) header size =
        let i = h.index in
        let notfull : ltb 4 q.index ≡ false = ground arith in
        let l : length q.fixed_header ≡ 5 =
          ap (λ (x : Bytes). length x) header ∙ length-append cs (r ∷ room) ∙ size in
        (
          record q {
            fixed_header = set q.fixed_header q.index c;
            index = q.index + 1;
            headerlen = q.index + 1;
          },
          rw (notfull, lt→ltb q.index (length q.fixed_header) (omega arith)) refl,
          record {
            room = room;
            header = rw (header, i) (set-append cs room r c);
            headerlen = omega (arith, length-append cs (c ∷ []));
            index = omega arith;
            size = omega (arith, length-append cs (c ∷ []));
          },
          refl,
        )

-- At the end of what is held the queue has no further byte, and room for one.
at_end :
    (q : SocketQueue) (cs : Bytes)
    → Holds q cs (length cs)
    → length cs < 5
    → (ltb q.index q.headerlen ≡ false) × (ltb 4 q.index ≡ false)
at_end q cs h more = (ground (arith, h.index, h.headerlen), ground (arith, h.index))

Holds-empty :
    (d : SocketQueue) (cs : Bytes)
    → d.index ≡ 0
    → d.headerlen ≡ 0
    → length d.fixed_header ≡ 5
    → cs ≡ []
    → Holds d cs (length cs)
Holds-empty d [] i l size empty = record {
  room = d.fixed_header;
  header = refl;
  headerlen = l;
  index = i;
  size = omega arith;
}
Holds-empty d (x ∷ cs) i l size empty = cc

-- The queue is to be read from its beginning.
Holds-restart :
    (q' q : SocketQueue) {i : ℕ} (cs : Bytes)
    → Holds q cs i
    → q'.index ≡ 0
    → q'.headerlen ≡ q.headerlen
    → q'.fixed_header ≡ q.fixed_header
    → Holds q' cs 0
Holds-restart q' q cs h i l f = record {
  room = h.room;
  header = f ∙ h.header;
  headerlen = l ∙ h.headerlen;
  index = i;
  size = h.size;
}

pub find-replaced :
    (s : ℕ) (q q' : SocketQueue) (qs : List SocketQueue)
    → find_entry queue_of s qs ≡ some q
    → q'.socket ≡ s
    → find_entry queue_of s (set_entry queue_of s q' qs) ≡ some q'
find-replaced s q q' qs found same = find-set queue_of s s q' qs same ∙ rw (==_self s, found) refl

pub find-appended :
    (s : ℕ) (q' : SocketQueue) (qs : List SocketQueue)
    → find_entry queue_of s qs ≡ none
    → q'.socket ≡ s
    → find_entry queue_of s (qs ++ q' ∷ []) ≡ some q'
find-appended s q' qs none_found same =
    let mine : (q'.socket == s) ≡ true = ground arith in
    find-append queue_of s qs q' ∙ rw (none_found, mine) refl

module _ (queue_memory : Arrivals → NewQueue) (s : ℕ) where
  -- What has been read before comes from the queue, and the network is left alone.
  pub getch_replay :
      (st : SocketBuffers) (n : Arrivals) (cs : Bytes) (i c : ℕ)
      → Held s st cs i
      → get_elem? cs i ≡ some c
      → (st' : SocketBuffers) × (socket_getch recv_one (λ n. (true, queue_memory n)) s st n
          ≡ done (tcpsocket_complete, some c, st', n))
        × Held s st' cs (suc i)
  unfolding socket_getch get_queued_char
  getch_replay st n cs i c (saved q found h) there =
      let l = get_elem?-lt cs i c there in
      let more : ltb q.index q.headerlen ≡ true = ground (arith, h.index, h.headerlen) in
      let e : get_elem? q.fixed_header q.index ≡ some c =
        rw (h.header, h.index) (get_elem?-append cs h.room i c there) in
      let q' = record q { index = q.index + 1 } in
      (
        record st { queues = set_entry queue_of s q' st.queues },
        rw (socket_getch, get_queued_char, found, more, e) refl,
        saved q' (find-replaced s q q' st.queues found (find-key queue_of s st.queues q found))
            (record {
              room = h.room;
              header = h.header;
              headerlen = h.headerlen;
              index = omega (arith, h.index);
              size = h.size;
            }),
      )
  getch_replay st n cs i c (current d none_found dq mine h end) there =
      absurd (omega (arith, get_elem?-lt cs i c there))
  getch_replay st n cs i c (untouched d none_found dq free len size empty start) there =
      absurd (omega (arith, get_elem?-lt cs i c there, ap (λ (x : Bytes). length x) empty))

  -- At the end of what is held a byte comes from the network, and is held too.
  pub getch_extend :
      (st : SocketBuffers) (n : Arrivals) (cs : Bytes) (c : ℕ)
      → s ≢ 0
      → Held s st cs (length cs)
      → length cs < 5
      → (st' : SocketBuffers) × (socket_getch recv_one
            (λ n. (true, queue_memory n))
            s
            st
            (some c ∷ n)
          ≡ done (tcpsocket_complete, some c, st', n))
        × Held s st' (cs ++ c ∷ []) (suc (length cs))
  unfolding socket_getch get_queued_char queue_char
  getch_extend st n cs c real (saved q found h) more =
      let (q', stored, h', same) = store_char-Holds q cs c h more in
      let (end, notfull) = at_end q cs h more in
      (
        record st { queues = set_entry queue_of s q' st.queues },
        rw (socket_getch, get_queued_char, found, end, notfull, queue_char, found, stored) refl,
        saved q'
            (find-replaced s q q' st.queues found (same ∙ find-key queue_of s st.queues q found))
            h',
      )
  getch_extend st n cs c real (current d none_found dq mine h end) more =
      let (q', stored, h', same) = store_char-Holds d cs c h more in
      let taken : (d.socket == 0) ≡ false = ground arith in
      let mine' : (d.socket == s) ≡ true = ground arith in
      (
        record st { def_queue = some q' },
        rw
            (
              socket_getch, get_queued_char, none_found, queue_char, none_found, dq, taken, mine',
              stored,
            )
            refl,
        current q' none_found refl (same ∙ mine) h' (omega (arith, length-append cs (c ∷ []))),
      )
  getch_extend st n cs c real (untouched d none_found dq free len size empty start) more =
      let d' = record d { socket = s; index = 0; datalen = 0 } in
      let h = Holds-empty d' cs refl len size empty in
      let (q', stored, h', same) = store_char-Holds d' cs c h more in
      let free' : (d.socket == 0) ≡ true = ground arith in
      (
        record st { def_queue = some q' },
        rw
            (
              socket_getch,
              get_queued_char,
              none_found,
              queue_char,
              none_found,
              dq,
              free',
              ==_self s,
              stored,
            )
            refl,
        current q' none_found refl same h' (omega (arith, length-append cs (c ∷ []))),
      )

  -- Where none has come, what is held is kept, and will be read from its beginning.
  pub getch_interrupted :
      (st : SocketBuffers) (n : Arrivals) (cs : Bytes)
      → (recv_one s 1 n).0 ≡ would_block
      → Held s st cs (length cs)
      → length cs < 5
      → (st' : SocketBuffers) × (socket_getch recv_one (λ n. (true, queue_memory n)) s st n
          ≡ done (tcpsocket_interrupted, none, st', (recv_one s 1 n).1))
        × Held s st' cs 0
  unfolding socket_getch get_queued_char interrupted
  getch_interrupted st n cs quiet (saved q found h) more =
      let (end, notfull) = at_end q cs h more in
      let q' = record q { index = 0; datalen = 0 } in
      (
        record st { queues = set_entry queue_of s q' st.queues },
        rw (socket_getch, get_queued_char, found, end, notfull, quiet, interrupted, found) refl,
        saved q' (find-replaced s q q' st.queues found (find-key queue_of s st.queues q found))
            (Holds-restart q' q cs h refl refl refl),
      )
  getch_interrupted st n cs quiet (current d none_found dq mine h end) more =
      let q' = record d { socket = s; index = 0; datalen = 0 } in
      (
        record st {
          queues = st.queues ++ q' ∷ [];
          def_queue = (new_def_q (queue_memory (recv_one s 1 n).1)).1;
        },
        rw (socket_getch, get_queued_char, none_found, quiet, interrupted, none_found, dq) refl,
        saved q' (find-appended s q' st.queues none_found refl)
            (Holds-restart q' d cs h refl refl refl),
      )
  getch_interrupted st n cs quiet (untouched d none_found dq free len size empty start) more =
      let q' = record d { socket = s; index = 0; datalen = 0 } in
      (
        record st {
          queues = st.queues ++ q' ∷ [];
          def_queue = (new_def_q (queue_memory (recv_one s 1 n).1)).1;
        },
        rw (socket_getch, get_queued_char, none_found, quiet, interrupted, none_found, dq) refl,
        saved q' (find-appended s q' st.queues none_found refl)
            (Holds-restart q' q' cs (Holds-empty q' cs refl len size empty) refl refl refl),
      )
