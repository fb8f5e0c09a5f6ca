-- ===== src/Utf8/Rows.antt =====
-- The loops over `valid_ranges` as statements on the bytes, whether `char` is signed or not.
use mqtt_client.Prelude.{
  Bool, List, [], arith, drop, false, if◌then◌else◌, inl, inr, leb, length, ltb, refl, true, ℕ,
  ◌&&◌, ◌<◌, ◌==◌, ◌||◌, ◌↔◌, ◌∷◌, ◌≡◌, ◌≤◌, ◌⊎◌,
}
use mqtt_client.Prelude.Bits.{bit_and_0x80, bit_and_0xe0, bit_and_0xf0}
use mqtt_client.Prelude.Predicates.{All, AllBytes, Bytes}
use mqtt_client.Utf8.{char_len, char_lt, check_row, check_rows, valid_ranges}
use native.Mathlib.Decide.{ℕ_discrete}

-- A byte within a row's limits, all of which are bytes from 128 on.
abbrev pub IsHigh : ℕ × ℕ → Type 0
IsHigh (lower, upper) = (128 ≤ lower) × (lower ≤ upper) × (upper < 256)

abbrev pub InRow : List (ℕ × ℕ) → Bytes → Type 0
InRow [] cur = Unit
InRow ((lower, upper) ∷ row) [] = ⊥
InRow ((lower, upper) ∷ row) (b ∷ cur) = (lower ≤ b) × (b ≤ upper) × InRow row cur

abbrev pub InRows : (charlen : ℕ) → Bytes → List (List (ℕ × ℕ)) → Type 0
InRows charlen cur [] = ⊥
InRows charlen cur (row ∷ rows) = ((length row ≡ charlen) × InRow row cur) ⊎ InRows charlen cur rows

abbrev pub high_ranges : List (List (ℕ × ℕ))
high_ranges = drop 1 valid_ranges

outside_high :
    (signed : Bool) (lower upper b : ℕ)
    → IsHigh (lower, upper)
    → b < 256
    → (char_lt signed b lower || char_lt signed upper b) ≡ (ltb b lower || ltb upper b)
unfolding char_lt
outside_high true lower upper b h hb = ground arith
outside_high false lower upper b h hb = refl

check_row_iff :
    (signed : Bool) (row : List (ℕ × ℕ)) (cur : Bytes)
    → All IsHigh row
    → AllBytes cur
    → (check_row signed row cur ≡ true) ↔ InRow row cur
unfolding check_row
check_row_iff signed [] cur h bytes = (λ e. tt, λ r. refl)
check_row_iff signed ((lower, upper) ∷ row) [] h bytes = (λ e. cc, λ r. absurd r)
check_row_iff signed ((lower, upper) ∷ row) (b ∷ cur) (hr, h) (hb, bytes) =
    let (to, from) = check_row_iff signed row cur h bytes in
    rw (outside_high signed lower upper b hr hb)
      (λ e. (ground arith, ground arith, to (ground arith)), λ (lo, hi, r). ground (arith, from r))

-- One row or a later one, where `good` and `rest` are the tests.
either_iff :
    (n m : ℕ) (good rest : Bool) {P Q : Type 0}
    → (good ≡ true) ↔ P
    → (rest ≡ true) ↔ Q
    → ((if n == m && good then true else rest) ≡ true) ↔ (((n ≡ m) × P) ⊎ Q)
either_iff n m true rest (to, from) (to', from') = (
  λ e. elim (ℕ_discrete n m) [
    | yes same ↦ inl (same, to refl)
    | no other ↦ inr (to' (ground arith))
  ],
  λ r. elim r [ inl one ↦ ground arith | inr more ↦ let e = from' more in ground arith ],
)
either_iff n m false rest (to, from) (to', from') = (
  λ e. inr (to' (ground arith)),
  λ r. elim r [
    | inl one ↦ let e = from one.1 in cc
    | inr more ↦ let e = from' more in ground arith
  ],
)

pub check_rows_iff :
    (signed : Bool) (charlen : ℕ) (cur : Bytes) (rows : List (List (ℕ × ℕ)))
    → All (All IsHigh) rows
    → AllBytes cur
    → (check_rows signed charlen cur rows ≡ true) ↔ InRows charlen cur rows
unfolding check_rows
check_rows_iff signed charlen cur [] h bytes = (λ e. cc, λ r. absurd r)
check_rows_iff signed charlen cur (row ∷ rows) (hr, h) bytes =
    either_iff (length row) charlen (check_row signed row cur) (check_rows signed charlen cur rows)
      (check_row_iff signed row cur hr bytes) (check_rows_iff signed charlen cur rows h bytes)

-- The first row is for characters of one byte only, and these are below 128.
pub check_rows_first :
    (signed : Bool) (b : ℕ) (cur : Bytes)
    → b < 128
    → check_rows signed 1 (b ∷ cur) valid_ranges ≡ true
unfolding check_rows check_row char_lt
check_rows_first true b cur h = ground arith
check_rows_first false b cur h = ground arith

pub check_rows_later :
    (signed : Bool) (charlen : ℕ) (cur : Bytes)
    → 1 < charlen
    → check_rows signed charlen cur valid_ranges ≡ check_rows signed charlen cur high_ranges
unfolding check_rows
check_rows_later signed charlen cur h =
    let other : (1 == charlen) ≡ false = ground arith in rw other

pub char_len_lem :
    (b : ℕ)
    → b < 256
    → char_len b ≡ (if ltb b 128 then 1 else if leb 240 b then 4 else if leb 224 b then 3 else 2)
unfolding char_len
char_len_lem b h = rw (bit_and_0x80 b h, bit_and_0xf0 b h, bit_and_0xe0 b h) (ground arith)

pub high_ranges-IsHigh : All (All IsHigh) high_ranges
high_ranges-IsHigh = ground arith
