-- ===== src/Socket/Send.antt =====
-- A packet from `Socket_putdatas` to its last byte on the connection.
use mqtt_client.Entries.{find-append, find_entry}
use mqtt_client.Prelude.{
  Bool, Bool-cases, List, [], ap, arith, false, inl, inr, length, length-append, length-take, ltb,
  map, none, refl, some, suc, sym, take, true, zero, ℕ, ◌++◌, ◌+◌, ◌==◌, ◌∙◌, ◌∷◌, ◌≡◌, ◌≤◌, ◌⊎◌,
}
use mqtt_client.Prelude.Int.{pos, ℤ, ◌==ℤ◌}
use mqtt_client.Prelude.Predicates.{Bytes}
use mqtt_client.Prelude.Run.{Ends, Run, done, ends, ◌>>=◌}
use mqtt_client.Socket.{
  Sockets, flatten, socket_no_pending_writes, socket_putdatas, socket_writev, total_len,
}
use mqtt_client.Socket.Deliver.{
  Line, continue_until, continue_until-flatten, line_of, sum, take-length-take, take-whole,
  writev_line,
}
use mqtt_client.Socket.Resume.{AreFull, flatten-full, flatten-nil}
use mqtt_client.SocketBuffer.{Iobuf, PendingWrite, SocketBuffers, pending_write, write_of}
use mqtt_client.SocketBuffer.Consistent.{le→leb}
use mqtt_client.Transport.{socket_error, tcpsocket_interrupted}

abbrev pub parts : Iobuf → List (Iobuf × Bool) → List Iobuf
parts buf0 bufs = buf0 ∷ map (λ b. b.0) bufs

-- `Socket_putdatas`, and then `Socket_continueWrite` for what is left: the last return code and what
-- the connection has taken.
unfoldable pub send_packet :
    (s : ℕ) → Iobuf → List (Iobuf × Bool) → Sockets → Line → Run (ℤ × Bytes)
send_packet s buf0 bufs st line =
    socket_putdatas writev_line true true true true s buf0 bufs st line >>= λ (rc, st', line').
    elim (rc ==ℤ tcpsocket_interrupted) [
      | false ↦ done (rc, line'.sent)
      | true ↦
          continue_until (length line'.windows + 1) s st'.buffers line' >>= λ (rc', st'', line'').
          done (rc', line''.sent)
    ]

total-flatten : (vs : List Iobuf) → AreFull vs → total_len vs ≡ length (flatten vs)
unfolding total_len
total-flatten [] full = ap length (sym flatten-nil)
total-flatten (v ∷ vs) (e, full) =
    rw (flatten-full v vs e)
      (omega (arith, e, total-flatten vs full, length-append v.iov_base (flatten vs)))

-- The first call of `writev`.
writev_once :
    (s : ℕ) (vs : List Iobuf) (ws : List ℕ)
    → let (rc, m, line') = socket_writev writev_line s vs (line_of ws []) in
      ((rc ==ℤ socket_error) ≡ false)
      × (line'.sent ≡ take m (flatten vs))
      × (m ≤ length (flatten vs))
      × (length (flatten vs) ≤ sum ws → length (flatten vs) ≤ m + sum line'.windows)
unfolding socket_writev
writev_once s vs [] = (refl, refl, omega arith, λ h. h)
writev_once s vs (zero ∷ ws) = (refl, refl, omega arith, λ h. omega arith)
writev_once s vs (suc k ∷ ws) =
    let l = length-take (suc k) (flatten vs) in
    (refl, sym (take-length-take (suc k) (flatten vs)), omega (arith, l), λ h. omega (arith, l))

-- The entry that an interrupted write leaves.
abbrev pending_of : ℕ → List Iobuf → List Bool → (total bytes : ℕ) → PendingWrite
pending_of s vs frees total bytes = record {
  socket = s;
  count = length vs;
  total = total;
  bytes = bytes;
  iovecs = vs;
  frees = frees;
}

pending_write_lem :
    (s : ℕ) (vs : List Iobuf) (frees : List Bool) (total bytes : ℕ) (st : SocketBuffers)
    → length vs ≤ 5
    → pending_write true true s vs frees total bytes st
      ≡ done (pos 0, record st { writes = st.writes ++ pending_of s vs frees total bytes ∷ [] })
unfolding pending_write
pending_write_lem s vs frees total bytes st few = rw (le→leb (length vs) 5 few) refl

find-pended :
    (s : ℕ) (w : PendingWrite) (ws : List PendingWrite)
    → find_entry write_of s ws ≡ none
    → w.socket ≡ s
    → find_entry write_of s (ws ++ w ∷ []) ≡ some w
find-pended s w ws none_found same =
    let mine : (w.socket == s) ≡ true = ground arith in
    find-append write_of s ws w ∙ rw (none_found, mine) refl

sent_in_the_end :
    {out : Bytes} {r : Run (ℤ × SocketBuffers × Line)}
    → Ends (λ (rc, st', line'). (rc ≡ pos 1) × (line'.sent ≡ out)) r
    → Ends
        (λ (rc, sent). ((rc ≡ pos 0) ⊎ (rc ≡ pos 1)) × (sent ≡ out))
        (r >>= λ (rc, st', line'). done (rc, line'.sent))
sent_in_the_end (ends (one, all)) = ends (inr one, all)

module _ (s : ℕ) (buf0 : Iobuf) (bufs : List (Iobuf × Bool)) (st : Sockets) (ws : List ℕ) where
  -- A packet of at most five buffers is sent byte for byte, however little the connection takes at a
  -- time, if nothing of the socket is pending, memory lasts and the windows have room for it.
  pub send_packet-flatten :
      socket_no_pending_writes s st ≡ true
      → find_entry write_of s st.buffers.writes ≡ none
      → length (parts buf0 bufs) ≤ 5
      → AreFull (parts buf0 bufs)
      → length (flatten (parts buf0 bufs)) ≤ sum ws
      → Ends
          (λ (rc, sent). ((rc ≡ pos 0) ⊎ (rc ≡ pos 1)) × (sent ≡ flatten (parts buf0 bufs)))
          (send_packet s buf0 bufs st (line_of ws []))
  unfolding send_packet socket_putdatas
  send_packet-flatten idle none_found few full room =
      let vs = parts buf0 bufs in
      let (proceeds, sent, bounded, left) = writev_once s vs ws in
      let few' : ltb 5 (length vs) ≡ false = ground arith in
      let t = total-flatten vs full in
      let m = (socket_writev writev_line s vs (line_of ws [])).1 in
      elim (Bool-cases (m == total_len vs)) [
        | inl complete_now ↦
            rw (send_packet, socket_putdatas, idle, few', proceeds, complete_now)
              (ends (inl refl, sent ∙ take-whole m (flatten vs) (ground (arith, t))))
        | inr more ↦
            let frees = true ∷ map (λ b. b.1) bufs in
            let w = pending_of s vs frees (total_len vs) m in
            let line' = (socket_writev writev_line s vs (line_of ws [])).2 in
            let kept = pending_write_lem s vs frees (total_len vs) m st.buffers few in
            rw (send_packet, socket_putdatas, idle, few', proceeds, more, kept)
              (sent_in_the_end (
                continue_until-flatten s
                  (record st.buffers { writes = st.buffers.writes ++ w ∷ [] }) w line'
                  (find-pended s w st.buffers.writes none_found refl)
                  (record { full = full; total = t; begun = ground (arith, t); sent = sent })
                  (omega (arith, t, left room))))
      ]
