-- ===== src/Socket/Deliver.antt =====
-- A packet that could not be written at once is written by `Socket_continueWrite` in the end.
use Prim.Native.Nat.{min}
use mqtt_client.Entries.{find-key, find-set, find_entry, set_entry}
use mqtt_client.Prelude.{
  Bool-cases, List, [], ap, arith, drop, false, inl, inr, length, length-drop, length-take, refl,
  some, suc, sym, take, true, zero, ℕ, ◌++◌, ◌+◌, ◌-◌, ◌<◌, ◌==◌, ◌∙◌, ◌∷◌, ◌≡◌, ◌≤◌,
}
use mqtt_client.Prelude.Int.{pos, ℤ, ◌==ℤ◌}
use mqtt_client.Prelude.Predicates.{Bytes}
use mqtt_client.Prelude.Run.{Ends, Run, done, ends, ◌>>=◌}
use mqtt_client.Socket.{
  Written, flatten, not_now, remaining, socket_continue_write, socket_writev, written,
}
use mqtt_client.Socket.Resume.{AreFull, remaining-drop}
use mqtt_client.SocketBuffer.{Iobuf, PendingWrite, SocketBuffers, get_write, write_of}
use mqtt_client.SocketBuffer.Consistent.{==_self}

-- The network of one connection: how many bytes it takes at each call, and what it has taken.
pub record Line : Type 0 where
  pub windows : List ℕ
  pub sent : Bytes

-- `writev` takes what the next window admits. An empty window and a silent network block.
abbrev pub writev_line : ℕ → List Iobuf → Line → Written × Line
writev_line s iovecs line = window_of line.windows
  where
    window_of : List ℕ → Written × Line
    window_of [] = (not_now, line)
    window_of (zero ∷ ws) = (not_now, record line { windows = ws })
    window_of (suc k ∷ ws) = (
      written (length (take (suc k) (flatten iovecs))),
      record { windows = ws; sent = line.sent ++ take (suc k) (flatten iovecs) },
    )

abbrev pub sum : List ℕ → ℕ
sum [] = 0
sum (w ∷ ws) = w + sum ws

-- `Socket_continueWrite` each time that `select` reports the socket, until it is not incomplete.
unfoldable pub continue_until : (fuel s : ℕ) → SocketBuffers → Line → Run (ℤ × SocketBuffers × Line)
continue_until zero s st line = done (pos 0, st, line)
continue_until (suc fuel) s st line =
    socket_continue_write writev_line s st line >>= λ (rc, st', line'). elim (rc ==ℤ pos 0) [
      | true ↦ continue_until fuel s st' line'
      | false ↦ done (rc, st', line')
    ]

-- `b` bytes of the pending write `pw` have gone out, and not all.
pub record IsPending (pw : PendingWrite) (line : Line) : Type 0 where
  pub full : AreFull pw.iovecs
  pub total : pw.total ≡ length (flatten pw.iovecs)
  pub begun : pw.bytes < pw.total
  pub sent : line.sent ≡ take pw.bytes (flatten pw.iovecs)

take-nil : (n : ℕ) → take {A = ℕ} n [] ≡ []
take-nil zero = refl
take-nil (suc n) = refl

take-append-take :
    (b k n : ℕ) (xs : Bytes) → n ≡ b + k → take b xs ++ take k (drop b xs) ≡ take n xs
take-append-take zero k n xs e = ap (λ (m : ℕ). take m xs) (omega arith)
take-append-take (suc b) k zero xs e = absurd (omega arith)
take-append-take (suc b) k (suc n) [] e = take-nil k
take-append-take (suc b) k (suc n) (x ∷ xs) e =
    ap (λ (l : Bytes). x ∷ l) (take-append-take b k n xs (omega arith))

pub take-length-take : (k : ℕ) (xs : Bytes) → take (length (take k xs)) xs ≡ take k xs
take-length-take zero xs = refl
take-length-take (suc k) [] = refl
take-length-take (suc k) (x ∷ xs) = ap (λ (l : Bytes). x ∷ l) (take-length-take k xs)

pub take-whole : (n : ℕ) (xs : Bytes) → n ≡ length xs → take n xs ≡ xs
take-whole zero [] e = refl
take-whole zero (x ∷ xs) e = absurd (omega arith)
take-whole (suc n) [] e = refl
take-whole (suc n) (x ∷ xs) e = ap (λ (l : Bytes). x ∷ l) (take-whole n xs (omega arith))

abbrev pub line_of : List ℕ → Bytes → Line
line_of ws out = record { windows = ws; sent = out }

-- The bytes that go out through a window of `k` when `b` have gone before.
gone_out :
    (pw : PendingWrite) {ws : List ℕ} {out : Bytes} (k : ℕ)
    → IsPending pw (line_of ws out)
    → let part = take k (flatten (remaining pw.bytes 0 pw.iovecs)) in
      (out ++ part ≡ take (pw.bytes + length part) (flatten pw.iovecs))
      × (length part ≡ min k (pw.total - pw.bytes))
gone_out pw {ws} {out} k h =
    let flat = flatten pw.iovecs in
    let left : flatten (remaining pw.bytes 0 pw.iovecs) ≡ drop pw.bytes flat =
      remaining-drop pw.bytes 0 pw.iovecs h.full ∙ ap (λ (m : ℕ). drop m flat) (omega arith) in
    rw left (
      ap (λ (o : Bytes). o ++ take k (drop pw.bytes flat)) h.sent
          ∙ ap (λ (p : Bytes). take pw.bytes flat ++ p)
              (sym (take-length-take k (drop pw.bytes flat)))
          ∙ take-append-take pw.bytes (length (take k (drop pw.bytes flat)))
              (pw.bytes + length (take k (drop pw.bytes flat))) flat refl,
      omega (arith, length-take k (drop pw.bytes flat), length-drop pw.bytes flat, h.total),
    )

find-rewritten :
    (s : ℕ) (w w' : PendingWrite) (ws : List PendingWrite)
    → find_entry write_of s ws ≡ some w
    → w'.socket ≡ w.socket
    → find_entry write_of s (set_entry write_of s w' ws) ≡ some w'
find-rewritten s w w' ws found same =
    find-set write_of s s w' ws (same ∙ find-key write_of s ws w found) ∙ rw (==_self s, found) refl

module _ (s : ℕ) where
  deliver :
      (ws : List ℕ) (fuel : ℕ) (st : SocketBuffers) (pw : PendingWrite) (out : Bytes)
      → find_entry write_of s st.writes ≡ some pw
      → IsPending pw (line_of ws out)
      → pw.total ≤ pw.bytes + sum ws
      → length ws < fuel
      → Ends
          (λ (rc, st', line'). (rc ≡ pos 1) × (line'.sent ≡ flatten pw.iovecs))
          (continue_until fuel s st (line_of ws out))
  unfolding continue_until socket_continue_write socket_writev get_write
  deliver [] fuel st pw out found h admitted enough = absurd (omega (arith, h.begun))
  deliver (w ∷ ws) zero st pw out found h admitted enough = absurd (omega arith)
  deliver (zero ∷ ws) (suc fuel) st pw out found h admitted enough =
      let pw' = record pw { bytes = pw.bytes + 0 } in
      let notyet : (pw.bytes + 0 == pw.total) ≡ false = ground (arith, h.begun) in
      let st' = record st { writes = set_entry write_of s pw' st.writes } in
      rw (continue_until, socket_continue_write, get_write, found, notyet)
        (deliver ws fuel st' pw' out (find-rewritten s pw pw' st.writes found refl)
          (record {
            full = h.full;
            total = h.total;
            begun = omega (arith, h.begun);
            sent = h.sent ∙ ap (λ (n : ℕ). take n (flatten pw.iovecs)) (omega arith);
          })
          (omega arith) (omega arith))
  deliver (suc k ∷ ws) (suc fuel) st pw out found h admitted enough =
      let m = length (take (suc k) (flatten (remaining pw.bytes 0 pw.iovecs))) in
      let (gone, amount) = gone_out pw (suc k) h in
      let pw' = record pw { bytes = pw.bytes + m } in
      let st' = record st { writes = set_entry write_of s pw' st.writes } in
      let out' = out ++ take (suc k) (flatten (remaining pw.bytes 0 pw.iovecs)) in
      elim (Bool-cases (pw.bytes + m == pw.total)) [
        | inl complete_now ↦
            rw (continue_until, socket_continue_write, get_write, found, complete_now)
              (ends (
                refl,
                gone ∙ take-whole (pw.bytes + m) (flatten pw.iovecs) (ground (arith, h.total)),
              ))
        | inr more ↦
            rw (continue_until, socket_continue_write, get_write, found, more)
              (deliver ws fuel st' pw' out' (find-rewritten s pw pw' st.writes found refl)
                (record {
                  full = h.full;
                  total = h.total;
                  begun = ground (arith, amount, h.begun);
                  sent = gone;
                })
                (ground (arith, amount)) (omega arith))
      ]

  -- However little the connection takes at a time, the pending write of `s` goes out byte for byte
  -- behind what had gone before, and is then reported complete, if the windows have room for the rest.
  pub continue_until-flatten :
      (st : SocketBuffers) (pw : PendingWrite) (line : Line)
      → find_entry write_of s st.writes ≡ some pw
      → IsPending pw line
      → pw.total ≤ pw.bytes + sum line.windows
      → Ends
          (λ (rc, st', line'). (rc ≡ pos 1) × (line'.sent ≡ flatten pw.iovecs))
          (continue_until (length line.windows + 1) s st line)
  continue_until-flatten st pw line found h admitted =
      deliver line.windows (length line.windows + 1) st pw line.sent found h admitted (omega arith)
