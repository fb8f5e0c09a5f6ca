-- ===== src/RemainingLength/Reading.antt =====
-- `MQTTPacket_decode` on arbitrary input: what a success, an overlong number and a broken read mean.
use mqtt_client.Prelude.{
  Bool-cases, [], ap, arith, false, inl, inr, length, ltb, ltb→lt, refl, suc, sym, zero, ℕ, ◌%◌,
  ◌*◌, ◌+◌, ◌-◌, ◌<◌, ◌^◌, ◌∙◌, ◌∷◌, ◌≡◌, ◌≤◌,
}
use mqtt_client.Prelude.Int.{==ℤ_eq, ◌==ℤ◌}
use mqtt_client.Prelude.Predicates.{All, Bytes}
use mqtt_client.RemainingLength.{decode, decode_loop}
use mqtt_client.RemainingLength.RoundTrip.{decode_step}
use mqtt_client.Transport.{Transport, socket_error, tcpsocket_complete}
use mqtt_client.Transport.Delivery.{Delivers}
use native.Mathlib.Nat.{pow-suc}

-- The bytes of one number: the top bit is set on all but the last.
abbrev pub IsVbi : Bytes → Type 0
IsVbi [] = ⊥
IsVbi (b ∷ []) = b < 128
IsVbi (b ∷ c ∷ bs) = (128 ≤ b) × (b < 256) × IsVbi (c ∷ bs)

abbrev pub IsContinued : ℕ → Type 0
IsContinued b = (128 ≤ b) × (b < 256)

-- The number that such bytes stand for.
unfoldable pub vbi_value : Bytes → ℕ
vbi_value [] = 0
vbi_value (b ∷ bs) = b % 128 + 128 * vbi_value bs

vbi_value-lt : (bs : Bytes) → vbi_value bs < 128 ^ length bs
unfolding vbi_value
vbi_value-lt [] = omega arith
vbi_value-lt (b ∷ bs) = omega (arith, vbi_value-lt bs, pow-suc 128 (length bs))

pow_le_four : (n : ℕ) → n ≤ 4 → 128 ^ n ≤ 128 ^ 4
pow_le_four zero h = omega arith
pow_le_four (suc zero) h = omega arith
pow_le_four (suc (suc zero)) h = omega arith
pow_le_four (suc (suc (suc zero))) h = omega arith
pow_le_four (suc (suc (suc (suc n)))) h = let e : n ≡ 0 = omega arith in rw e (omega arith)

IsVbi-cons : (b : ℕ) (bs : Bytes) → 128 ≤ b → b < 256 → IsVbi bs → IsVbi (b ∷ bs)
IsVbi-cons b [] lo hi h = absurd h
IsVbi-cons b (c ∷ bs) lo hi h = (lo, hi, h)

module _ {S : Type 0} (t : Transport S) where
  abbrev Read : (left multiplier value v : ℕ) → S → S → Type 0
  Read left multiplier value v s s' =
      (bs : Bytes) × Delivers t s bs s'
      × IsVbi bs
      × (length bs ≤ left)
      × (v ≡ value + vbi_value bs * multiplier)

  -- A read that is not complete ends the loop with its code.
  decode_stops :
      (left multiplier value : ℕ) (s : S)
      → ((t.getch s).0 ==ℤ tcpsocket_complete) ≡ false
      → decode_loop t (suc left) multiplier value s ≡ ((t.getch s).0, value, (t.getch s).2)
  unfolding decode_loop
  decode_stops left multiplier value s h = rw h

  module _ (left multiplier value v : ℕ) (s s' s₁ : S) (b : ℕ)
      (e : t.getch s ≡ (tcpsocket_complete, b, s₁)) where
    Read-last :
        b < 128
        → v ≡ value + b % 128 * multiplier
        → s₁ ≡ s'
        → Read (suc left) multiplier value v s s'
    unfolding vbi_value
    Read-last low sum end = (b ∷ [], (s₁, e, end), low, omega arith, omega arith)

    Read-inner :
        128 ≤ b
        → b < 256
        → Read left (multiplier * 128) (value + b % 128 * multiplier) v s₁ s'
        → Read (suc left) multiplier value v s s'
    unfolding vbi_value
    Read-inner lo hi (bs, d, is, fits, sum) =
        (b ∷ bs, (s₁, e, d), IsVbi-cons b bs lo hi is, omega arith, omega arith)

  decode_loop_sound :
      (left multiplier value v : ℕ) (s s' : S)
      → decode_loop t left multiplier value s ≡ (tcpsocket_complete, v, s')
      → Read left multiplier value v s s'
  decode_loop_sound zero multiplier value v s s' h = unfold decode_loop in cc
  decode_loop_sound (suc left) multiplier value v s s' h =
      elim (Bool-cases ((t.getch s).0 ==ℤ tcpsocket_complete)) [
        | inl ok ↦
            let e : t.getch s ≡ (tcpsocket_complete, (t.getch s).1, (t.getch s).2) =
              λ i. (==ℤ_eq (t.getch s).0 tcpsocket_complete ok i, (t.getch s).1, (t.getch s).2) in
            let step =
              sym h
              ∙ decode_step t left multiplier value (t.getch s).1 s (t.getch s).2 e
                  (t.getch-IsByte s) in
            elim (Bool-cases (ltb (t.getch s).1 128)) [
              | inl low ↦
                  let end = rw low at step in
                  Read-last left multiplier value v s s' (t.getch s).2 (t.getch s).1 e
                    (ltb→lt (t.getch s).1 128 low) (ap (λ r. r.1) end) (sym (ap (λ r. r.2) end))
              | inr high ↦
                  Read-inner left multiplier value v s s' (t.getch s).2 (t.getch s).1 e
                    (ground arith) (t.getch-IsByte s)
                    (decode_loop_sound left (multiplier * 128)
                      (value + (t.getch s).1 % 128 * multiplier) v (t.getch s).2 s'
                      (sym (rw high at step)))
            ]
        | inr bad ↦
            let stop = sym (decode_stops left multiplier value s bad) ∙ h in
            cc (ap (λ r. r.0 ==ℤ tcpsocket_complete) stop, bad)
      ]

  -- Bytes with the top bit set only move the loop on.
  decode_loop-prefix :
      (bs : Bytes) (left rounds multiplier value : ℕ) (s s₁ : S)
      → rounds ≡ length bs + left
      → All IsContinued bs
      → Delivers t s bs s₁
      → (m : ℕ) × (v : ℕ) × (decode_loop t rounds multiplier value s ≡ decode_loop t left m v s₁)
  decode_loop-prefix [] left rounds multiplier value s s₁ e h d =
      let e' : rounds ≡ left = omega arith in (multiplier, value, rw (e', d))
  decode_loop-prefix (b ∷ bs) left zero multiplier value s s₁ e h d = absurd (omega arith)
  decode_loop-prefix (b ∷ bs) left (suc rounds) multiplier value s s₁ e (hb, h) (s₂, r, d) =
      let (m, v, more) =
        decode_loop-prefix bs left rounds (multiplier * 128) (value + b % 128 * multiplier) s₂ s₁
          (omega arith) h d in
      let high : ltb b 128 ≡ false = ground arith in
      let step = decode_step t rounds multiplier value b s s₂ r hb.1 in
      (m, v, rw high at step ∙ more)

  -- If `MQTTPacket_decode` succeeds, then it has read 1 to 4 bytes that form one number, the top bit
  -- set on all but the last, and `*value` is that number, below 128 ^ 4.
  pub decode_sound :
      (v : ℕ) (s s' : S)
      → decode t s ≡ (tcpsocket_complete, v, s')
      → (bs : Bytes) × Delivers t s bs s'
        × IsVbi bs
        × (length bs ≤ 4)
        × (v ≡ vbi_value bs)
        × (v < 128 ^ 4)
  unfolding decode
  decode_sound v s s' h =
      let (bs, d, is, fits, sum) = decode_loop_sound 4 1 0 v s s' h in
      (bs, d, is, fits, omega arith, omega (arith, vbi_value-lt bs, pow_le_four (length bs) fits))

  -- Four bytes with the top bit set are an error of `MQTTPacket_decode`, whatever follows: nothing is
  -- read behind them.
  pub decode_overlong :
      (bs : Bytes) (s s' : S)
      → length bs ≡ 4
      → All IsContinued bs
      → Delivers t s bs s'
      → (v : ℕ) × (decode t s ≡ (socket_error, v, s'))
  unfolding decode
  decode_overlong bs s s' e h d =
      let (m, v, run) = decode_loop-prefix bs 0 4 1 0 s s' (omega arith) h d in
      (v, run ∙ unfold decode_loop in refl)

  -- A read that is interrupted or fails behind fewer than four bytes with the top bit set ends
  -- `MQTTPacket_decode` with the code of that read.
  pub decode_broken :
      (bs : Bytes) (s s₁ : S)
      → length bs < 4
      → All IsContinued bs
      → Delivers t s bs s₁
      → ((t.getch s₁).0 ==ℤ tcpsocket_complete) ≡ false
      → (decode t s).0 ≡ (t.getch s₁).0
  unfolding decode
  decode_broken bs s s₁ e h d bad =
      let (m, v, run) = decode_loop-prefix bs (suc (3 - length bs)) 4 1 0 s s₁ (omega arith) h d in
      ap (λ r. r.0) (run ∙ decode_stops (3 - length bs) m v s₁ bad)
