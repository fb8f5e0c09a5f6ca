-- ===== src/Utf8.antt =====
-- utils/utf-8.c: the test that a string is well-formed UTF-8.
pub mod Rows
pub mod Characters
pub mod Strings
mod Runs
use Prim.Native.Nat.{bit_and}
use mqtt_client.Prelude.{
  Bool, List, Option, [], drop, false, if◌then◌else◌, length, ltb, none, some, suc, true, zero, ℕ,
  ◌%◌, ◌&&◌, ◌+◌, ◌==◌, ◌||◌, ◌∷◌,
}
use mqtt_client.Prelude.Predicates.{Bytes}

-- `<` of two `char` values, given as bytes. Where `char` is signed, a byte from 128 on stands for
-- itself minus 256: the values plus 128 are compared.
char_lt : (signed : Bool) → ℕ → ℕ → Bool
char_lt true a b = ltb ((a + 128) % 256) ((b + 128) % 256)
char_lt false a b = ltb a b

-- `valid_ranges`: in each row a lower and an upper limit for each byte, `len` of them.
abbrev pub valid_ranges : List (List (ℕ × ℕ))
valid_ranges =
    ((0x00, 0x7F) ∷ [])
    ∷ ((0xC2, 0xDF) ∷ (0x80, 0xBF) ∷ [])
    ∷ ((0xE0, 0xE0) ∷ (0xA0, 0xBF) ∷ (0x80, 0xBF) ∷ [])
    ∷ ((0xE1, 0xEC) ∷ (0x80, 0xBF) ∷ (0x80, 0xBF) ∷ [])
    ∷ ((0xED, 0xED) ∷ (0x80, 0x9F) ∷ (0x80, 0xBF) ∷ [])
    ∷ ((0xEE, 0xEF) ∷ (0x80, 0xBF) ∷ (0x80, 0xBF) ∷ [])
    ∷ ((0xF0, 0xF0) ∷ (0x90, 0xBF) ∷ (0x80, 0xBF) ∷ (0x80, 0xBF) ∷ [])
    ∷ ((0xF1, 0xF3) ∷ (0x80, 0xBF) ∷ (0x80, 0xBF) ∷ (0x80, 0xBF) ∷ [])
    ∷ ((0xF4, 0xF4) ∷ (0x80, 0x8F) ∷ (0x80, 0xBF) ∷ (0x80, 0xBF) ∷ [])
    ∷ []

-- `charlen`.
unfoldable pub char_len : ℕ → ℕ
char_len b =
    if bit_and b 128 == 0
    then 1
    else if bit_and b 0xF0 == 0xF0
    then 4
    else if bit_and b 0xE0 == 0xE0
    then 3
    else 2

module _ (signed : Bool) where
  -- The inner loop. It is not run on fewer bytes than the row has.
  check_row : List (ℕ × ℕ) → Bytes → Bool
  check_row [] cur = true
  check_row ((lower, upper) ∷ row) [] = false
  check_row ((lower, upper) ∷ row) (b ∷ cur) =
      let rest = check_row row cur in
      if char_lt signed b lower || char_lt signed upper b then false else rest

  -- The outer loop.
  pub check_rows : (charlen : ℕ) → Bytes → List (List (ℕ × ℕ)) → Bool
  check_rows charlen cur [] = false
  check_rows charlen cur (row ∷ rows) =
      let rest = check_rows charlen cur rows in
      if length row == charlen && check_row row cur then true else rest

  -- `UTF8_char_validate`: what lies behind the character, `none` for `NULL`. It is not called on an
  -- empty string.
  pub char_validate : Bytes → Option Bytes
  char_validate [] = none
  char_validate (b ∷ cur) =
      let charlen = char_len b in
      if ltb (length (b ∷ cur)) charlen
      then none
      else if check_rows charlen (b ∷ cur) valid_ranges
      then some (drop charlen (b ∷ cur))
      else none

  -- The loop of `UTF8_validate`, from `curdata` on, with fuel.
  validate_loop : (fuel : ℕ) → Option Bytes → Bool
  validate_loop fuel none = false
  validate_loop fuel (some []) = true
  validate_loop zero (some (b ∷ cur)) = false
  validate_loop (suc fuel) (some (b ∷ cur)) = validate_loop fuel (char_validate (b ∷ cur))

  -- `UTF8_validate`, with `none` for `NULL`. Each round takes at least a byte, so that the length is
  -- enough fuel.
  pub validate : Option Bytes → Bool
  validate none = true
  validate (some cur) = validate_loop (length cur) (some cur)

  -- `UTF8_validateString`, with the characters before the terminating zero.
  pub validate_string : Option Bytes → Bool
  validate_string none = false
  validate_string (some string) = validate (some string)
