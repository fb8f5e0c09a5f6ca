-- ===== src/Socket/Header.antt =====
-- Reading a fixed header in as many attempts as it takes.
use mathlib.Core.Option
use mathlib.Core.List.{append_assoc}
use mathlib.Core.Path.{subst}
use mqtt_client.Entries.{find_entry}
use mqtt_client.Prelude.{
  Option, [], ap, arith, drop, get_elem?, get_elem?-some, length, length-append, none, refl, some,
  suc, sym, take, true, zero, ℕ, ◌++◌, ◌+◌, ◌<◌, ◌∙◌, ◌∷◌, ◌≡◌, ◌≢◌, ◌≤◌,
}
use mqtt_client.Prelude.Predicates.{Bytes}
use mqtt_client.Prelude.Run.{Ends, Ends-inv, Run, done, ends, ◌>>=◌}
use mqtt_client.Socket.{socket_getch}
use mqtt_client.Socket.Getch.{
  Arrivals, Held, arriving, getch_extend, getch_interrupted, getch_replay, recv_one, untouched,
}
use mqtt_client.SocketBuffer.{NewQueue, SocketBuffers, SocketQueue, queue_of}
use mqtt_client.SocketBuffer.Consistent.{HasDefault, IsConsistent, run}
use native.Mathlib.Decide.{dec_lt}

drop-get : (xs : Bytes) (i c : ℕ) → get_elem? xs i ≡ some c → drop i xs ≡ c ∷ drop (suc i) xs
drop-get [] i c h = cc
drop-get (x ∷ xs) zero c h = ground arith
drop-get (x ∷ xs) (suc i) c h = drop-get xs i c h

get_elem?-left :
    (cs rest : Bytes) (i c : ℕ) → get_elem? cs i ≡ some c → get_elem? (cs ++ rest) i ≡ some c
get_elem?-left [] rest i c h = cc
get_elem?-left (x ∷ cs) rest zero c h = h
get_elem?-left (x ∷ cs) rest (suc i) c h = get_elem?-left cs rest i c h

get_elem?-middle : (cs rest : Bytes) (c : ℕ) → get_elem? (cs ++ c ∷ rest) (length cs) ≡ some c
get_elem?-middle [] rest c = refl
get_elem?-middle (x ∷ cs) rest c = get_elem?-middle cs rest c

-- `k` calls of `Socket_getch` in a row, as far as none is interrupted: the bytes if all were read.
-- The packet layer reads the fixed header in this way, and begins again after an interruption.
module _ (queue_memory : Arrivals → NewQueue) (s : ℕ) where
  unfoldable pub read_chars :
      ℕ → SocketBuffers → Arrivals → Run (Option Bytes × SocketBuffers × Arrivals)
  read_chars zero st n = done (some [], st, n)
  read_chars (suc k) st n =
      socket_getch recv_one (λ n. (true, queue_memory n)) s st n >>= λ (rc, c, st', n'). elim c [
        | none ↦ done (none, st', n')
        | some c' ↦ read_chars k st' n' >>= λ (cs, st'', n'').
            done (Option.map (λ cs. c' ∷ cs) cs, st'', n'')
      ]

  -- Attempts until all `k` bytes are there.
  unfoldable pub read_header :
      (fuel k : ℕ) → SocketBuffers → Arrivals → Run (Option Bytes × SocketBuffers × Arrivals)
  unfolding read_chars
  read_header zero k st n = done (none, st, n)
  read_header (suc fuel) k st n = read_chars k st n >>= λ (cs, st', n'). elim cs [
    | none ↦ read_header fuel k st' n'
    | some cs' ↦ done (some cs', st', n')
  ]

  -- What one attempt comes to, when `cs` is held and `all` are the bytes of the packet: the next `k`
  -- bytes, or else what was held and has come is held, to be read from its beginning.
  data Attempt (all : Bytes) (i k : ℕ) (n : Arrivals)
      : Option Bytes × SocketBuffers × Arrivals → Type 0 where
    all_read :
        {st' : SocketBuffers} {n' : Arrivals}
        → Attempt all i k n (some (take k (drop i all)), st', n')
    stopped :
        {st' : SocketBuffers} {n' : Arrivals} (cs' : Bytes)
        → Held s st' cs' 0
        → cs' ++ arriving n' ≡ all
        → length n' < length n
        → Attempt all i k n (none, st', n')

  -- One byte has been read, and then what the rest of the attempt comes to.
  Attempt-cons :
      {all : Bytes} {i k c : ℕ} {n0 n : Arrivals}
      {r : Run (Option Bytes × SocketBuffers × Arrivals)}
      → get_elem? all i ≡ some c
      → length n ≤ length n0
      → Ends (Attempt all (suc i) k n) r
      → Ends
          (Attempt all i (suc k) n0)
          (r >>= λ (cs, st, n'). done (Option.map (λ cs. c ∷ cs) cs, st, n'))
  Attempt-cons {all} {i} {k} {c} {n0} there shorter (ends (all_read {st'} {n'})) = ends (
      subst (λ (l : Bytes). Attempt all i (suc k) n0 (some l, st', n'))
        (rw (drop-get all i c there) refl) all_read)
  Attempt-cons there shorter (ends (stopped cs' held same less)) =
      ends (stopped cs' held same (omega arith))

  abbrev AttemptEnds : ℕ → Bytes → Type 0
  AttemptEnds k all =
      (st : SocketBuffers) (n : Arrivals) (cs : Bytes) (i : ℕ)
      → Held s st cs i
      → i ≤ length cs
      → cs ++ arriving n ≡ all
      → i + k ≤ length all
      → i + k ≤ 5
      → Ends (Attempt all i k n) (read_chars k st n)

  -- An attempt that has read all that is held, and goes on with the network.
  Attempt-on :
      (k : ℕ) (all : Bytes)
      → s ≢ 0
      → AttemptEnds k all
      → (st : SocketBuffers) (n : Arrivals) (cs : Bytes) → Held s st cs (length cs)
      → cs ++ arriving n ≡ all
      → length cs + suc k ≤ length all
      → length cs + suc k ≤ 5
      → Ends (Attempt all (length cs) (suc k) n) (read_chars (suc k) st n)
  unfolding read_chars
  Attempt-on k all real later st [] cs held same long few =
      absurd (omega (arith, ap (λ (l : Bytes). length l) same, length-append cs []))
  Attempt-on k all real later st (none ∷ n) cs held same long few =
      let (st', run, held') =
        getch_interrupted queue_memory s st (none ∷ n) cs refl held (omega arith) in
      rw (read_chars, run) (ends (stopped cs held' same (omega arith)))
  Attempt-on k all real later st (some c ∷ n) cs held same long few =
      let (st', run, held') = getch_extend queue_memory s st n cs c real held (omega arith) in
      let l = length-append cs (c ∷ []) in
      let there : get_elem? all (length cs) ≡ some c =
        subst (λ (x : Bytes). get_elem? x (length cs) ≡ some c) same
          (get_elem?-middle cs (arriving n) c) in
      rw (read_chars, run)
        (Attempt-cons there (omega arith) (
          later st' n (cs ++ c ∷ []) (suc (length cs)) held' (omega (arith, l))
            (append_assoc cs (c ∷ []) (arriving n) ∙ same) (omega arith) (omega arith)))

  attempt-Ends : (k : ℕ) (all : Bytes) → s ≢ 0 → AttemptEnds k all
  unfolding read_chars
  attempt-Ends zero all real st n cs i held at same long few = ends all_read
  attempt-Ends (suc k) all real st n cs i held at same long few = elim (dec_lt i (length cs)) [
    | yes inside ↦
        let (c, there) = get_elem?-some cs i inside in
        let (st', run, held') = getch_replay queue_memory s st n cs i c held there in
        let there' : get_elem? all i ≡ some c =
          subst (λ (x : Bytes). get_elem? x i ≡ some c) same
            (get_elem?-left cs (arriving n) i c there) in
        rw (read_chars, run)
          (Attempt-cons there' (omega arith) (
            attempt-Ends k all real st' n cs (suc i) held' (omega arith) same (omega arith)
              (omega arith)))
    | no outside ↦
        let e : length cs ≡ i = omega arith in
        subst (λ (x : ℕ). Ends (Attempt all x (suc k) n) (read_chars (suc k) st n)) e
          (Attempt-on k all real (attempt-Ends k all real) st n cs
            (subst (λ (x : ℕ). Held s st cs x) (sym e) held) same (omega arith) (omega arith))
  ]

  abbrev HeaderEnds : (fuel k : ℕ) → Bytes → Type 0
  HeaderEnds fuel k all =
      (st : SocketBuffers) (n : Arrivals) (cs : Bytes)
      → Held s st cs 0
      → cs ++ arriving n ≡ all
      → length n < fuel
      → Ends (λ (r, st', n'). r ≡ some (take k all)) (read_header fuel k st n)

  Attempt-after :
      (fuel k : ℕ) (all : Bytes)
      → HeaderEnds fuel k all
      → (st : SocketBuffers) {n : Arrivals} {r : Option Bytes × SocketBuffers × Arrivals}
      → length n < suc fuel
      → read_chars k st n ≡ done r
      → Attempt all 0 k n r
      → Ends (λ (r, st', n'). r ≡ some (take k all)) (read_header (suc fuel) k st n)
  unfolding read_header
  Attempt-after fuel k all later st enough e all_read = rw (read_header, e) (ends refl)
  Attempt-after fuel k all later st enough e (stopped {st'} {n'} cs held same less) =
      rw (read_header, e) (later st' n' cs held same (omega arith))

  read_header-Ends :
      (fuel k : ℕ) (all : Bytes) → s ≢ 0 → k ≤ length all → k ≤ 5 → HeaderEnds fuel k all
  read_header-Ends zero k all real long few st n cs held same enough = absurd (omega arith)
  read_header-Ends (suc fuel) k all real long few st n cs held same enough =
      let (r, e, a) =
        Ends-inv
          (attempt-Ends k all real st n cs 0 held (omega arith) same (omega arith) (omega arith)) in
      Attempt-after fuel k all (read_header-Ends fuel k all real long few) st enough e a

  -- However the bytes of a header of at most five bytes are held up on the way, they are read in the
  -- order in which they come, within one attempt more than there are arrivals and silences, when the
  -- state is consistent, nothing of the connection is kept, no other connection uses the default queue,
  -- and there is memory for the elements of the list of queues and for new default queues.
  pub read_header-arriving :
      (k : ℕ) (st : SocketBuffers) (n : Arrivals) (d : SocketQueue)
      → s ≢ 0
      → IsConsistent st
      → find_entry queue_of s st.queues ≡ none
      → st.def_queue ≡ some d
      → d.socket ≡ 0
      → k ≤ length (arriving n)
      → k ≤ 5
      → Ends (λ (r, st', n'). r ≡ some (take k (arriving n))) (read_header (length n + 1) k st n)
  read_header-arriving k st n d real is none_found dq free long few =
      let ((a, b, size, fits), unused) = subst HasDefault dq is.default in
      read_header-Ends (length n + 1) k (arriving n) real long few st n []
        (untouched d none_found dq free (unused free).1 size refl refl) refl (omega arith)
