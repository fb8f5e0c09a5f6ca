-- ===== src/Wire/Int4.antt =====
-- `writeInt4` takes an `int`, and `/` and `%` round towards zero: what that means for the four byte
-- properties, which are `unsigned int`.
use mqtt_client.Prelude.{
  [], ap, arith, get_or, inl, inr, refl, suc, zero, ℕ, ◌%◌, ◌+◌, ◌-◌, ◌/◌, ◌<◌, ◌^◌, ◌↔◌, ◌∷◌, ◌≡◌,
  ◌≤◌, ◌⊎◌,
}
use mqtt_client.Prelude.Int.{neg, quot, rem, to_char, to_int, ℤ}
use mqtt_client.Prelude.Predicates.{Bytes}
use mqtt_client.Wire.{Cursor, put, write_char, write_int4}
use mqtt_client.Wire.Writing.{put-put, put-put_bind}
use native.Mathlib.Decide.{dec_lt}

-- The four bytes of a number, high byte first.
unfoldable pub int4_bytes : ℕ → Bytes
int4_bytes v = v / 16777216 % 256 ∷ v / 65536 % 256 ∷ v / 256 % 256 ∷ v % 256 ∷ []

-- What `writeInt4` writes.
unfoldable pub int4_written : ℤ → Bytes
int4_written n =
    let r = rem n 16777216 in
    let q = rem r 65536 in
    to_char (quot n 16777216)
    ∷ to_char (quot r 65536)
    ∷ to_char (quot q 256)
    ∷ to_char (rem q 256)
    ∷ []

pub write_int4-put : (n : ℤ) (c : Cursor) → write_int4 n c ≡ put (int4_written n) c
unfolding write_int4 write_char int4_written
write_int4-put n c = simp (put-put_bind, put-put)

pub int4_written_low : (v : ℕ) → v < 2 ^ 31 → int4_written (to_int v) ≡ int4_bytes v
unfolding int4_written int4_bytes
int4_written_low v h = ground arith

-- The integer that stands for a value with the top bit set, and its two's complement digits.
high_value : (v : ℕ) → 2 ^ 31 ≤ v → v < 2 ^ 32 → to_int v ≡ neg (2 ^ 32 - v)
high_value v h u = ground arith

to_char-neg : (n : ℕ) → to_char (neg n) ≡ (256 - n % 256) % 256
to_char-neg zero = refl
to_char-neg (suc n) = omega arith

zero_div : (d : ℕ) → 0 < d → 0 / d ≡ 0
zero_div d h = grind arith

zero_mod : (d : ℕ) → 0 < d → 0 % d ≡ 0
zero_mod d h = grind arith

quot-neg : (n d : ℕ) → 0 < d → quot (neg n) d ≡ neg (n / d)
quot-neg zero d h = rw (zero_div d h)
quot-neg (suc n) d h = refl

rem-neg : (n d : ℕ) → 0 < d → rem (neg n) d ≡ neg (n % d)
rem-neg zero d h = rw (zero_mod d h)
rem-neg (suc n) d h = refl

-- The digits of -n, each negated on its own.
int4_written-neg :
    (n : ℕ)
    → int4_written (neg n)
      ≡ (256 - n / 16777216 % 256) % 256
        ∷ (256 - n % 16777216 / 65536 % 256) % 256
        ∷ (256 - n % 16777216 % 65536 / 256 % 256) % 256
        ∷ (256 - n % 16777216 % 65536 % 256 % 256) % 256
        ∷ []
unfolding int4_written
int4_written-neg n = rw (
  quot-neg n 16777216 (omega arith),
  rem-neg n 16777216 (omega arith),
  quot-neg (n % 16777216) 65536 (omega arith),
  rem-neg (n % 16777216) 65536 (omega arith),
  quot-neg (n % 16777216 % 65536) 256 (omega arith),
  rem-neg (n % 16777216 % 65536) 256 (omega arith),
  to_char-neg (n / 16777216),
  to_char-neg (n % 16777216 / 65536),
  to_char-neg (n % 16777216 % 65536 / 256),
  to_char-neg (n % 16777216 % 65536 % 256),
)

digits :
    (v n : ℕ)
    → n + v ≡ 2 ^ 32
    → n ≤ 2 ^ 31
    → (256 - n / 16777216 % 256) % 256 ≡ v / 16777216 % 256
    → (256 - n % 16777216 / 65536 % 256) % 256 ≡ v / 65536 % 256
    → (256 - n % 16777216 % 65536 / 256 % 256) % 256 ≡ v / 256 % 256
    → (256 - n % 16777216 % 65536 % 256 % 256) % 256 ≡ v % 256
    → v % 16777216 ≡ 0
digits v n e h b3 b2 b1 b0 = omega arith

ap₄ :
    {a b c d a' b' c' d' : ℕ}
    → a ≡ a'
    → b ≡ b'
    → c ≡ c'
    → d ≡ d'
    → ◌≡◌ {A = Bytes} (a ∷ b ∷ c ∷ d ∷ []) (a' ∷ b' ∷ c' ∷ d' ∷ [])
ap₄ p q r s = cc

int4_written_high :
    (v n : ℕ)
    → n + v ≡ 2 ^ 32
    → n ≤ 2 ^ 31
    → (int4_written (neg n) ≡ int4_bytes v) ↔ (v % 16777216 ≡ 0)
unfolding int4_bytes
int4_written_high v n e h = rw (int4_written-neg n) (
  λ p. omega (
    arith,
    digits v n e h (ap (λ xs. get_or xs 0 0) p) (ap (λ xs. get_or xs 1 0) p)
        (ap (λ xs. get_or xs 2 0) p) (ap (λ xs. get_or xs 3 0) p),
  ),
  λ p. ap₄ (omega arith) (omega arith) (omega arith) (omega arith),
)

-- `writeInt4` on an `unsigned int` writes its four bytes, high byte first, exactly when the top bit
-- is clear or the three low bytes are zero.
pub int4_written_iff :
    (v : ℕ)
    → v < 2 ^ 32
    → (int4_written (to_int v) ≡ int4_bytes v) ↔ ((v < 2 ^ 31) ⊎ (v % 16777216 ≡ 0))
int4_written_iff v h = elim (dec_lt v (2 ^ 31)) [
  | yes low ↦ (λ e. inl low, λ r. int4_written_low v low)
  | no high ↦
      let (to, from) = int4_written_high v (2 ^ 32 - v) (omega arith) (omega arith) in
      rw (high_value v (omega arith) h) (λ e. inr (to e), λ r. from (omega arith))
]
