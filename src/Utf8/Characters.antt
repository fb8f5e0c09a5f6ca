-- ===== src/Utf8/Characters.antt =====
-- The characters that `UTF8_char_validate` accepts are the encodings of the Unicode scalar values.
use mqtt_client.Prelude.{
  Bool, [], arith, drop, false, if◌then◌else◌, inl, inr, length, ltb, none, refl, some, suc, true,
  zero, ℕ, ◌%◌, ◌*◌, ◌++◌, ◌+◌, ◌-◌, ◌/◌, ◌<◌, ◌∷◌, ◌≡◌, ◌≤◌, ◌⊎◌,
}
use mqtt_client.Prelude.Predicates.{All-append, AllBytes, Bytes, IsByte}
use mqtt_client.Utf8.{char_len, char_validate, check_rows}
use mqtt_client.Utf8.Rows.{
  InRows, char_len_lem, check_rows_first, check_rows_iff, check_rows_later, high_ranges,
  high_ranges-IsHigh,
}
use native.Mathlib.Decide.{dec_lt}

-- The code points without the surrogates.
abbrev pub IsScalar : ℕ → Type 0
IsScalar c = (c < 0xD800) ⊎ ((0xE000 ≤ c) × (c < 0x110000))

-- The UTF-8 encoding of a code point.
unfoldable pub char_bytes : ℕ → Bytes
char_bytes c =
    if ltb c 0x80
    then c ∷ []
    else if ltb c 0x800
    then (192 + c / 64) ∷ (128 + c % 64) ∷ []
    else if ltb c 0x10000
    then (224 + c / 4096) ∷ (128 + c / 64 % 64) ∷ (128 + c % 64) ∷ []
    else (240 + c / 262144) ∷ (128 + c / 4096 % 64) ∷ (128 + c / 64 % 64) ∷ (128 + c % 64) ∷ []

-- The bytes that one code point stands for, at the front of a string.
abbrev pub StartsWith : (c : ℕ) → (cur rest : Bytes) → Type 0
StartsWith c cur rest = IsScalar c × (cur ≡ char_bytes c ++ rest)

two_bytes :
    (b b₁ : ℕ) (rest : Bytes)
    → InRows 2 (b ∷ b₁ ∷ rest) high_ranges
    → (c : ℕ) × StartsWith c (b ∷ b₁ ∷ rest) rest
unfolding char_bytes
two_bytes b b₁ rest r =
    let c = (b - 192) * 64 + (b₁ - 128) in
    let range : (128 ≤ c) × (c < 2048) = omega arith in
    let digits : (b ≡ 192 + c / 64) × (b₁ ≡ 128 + c % 64) = omega arith in
    (c, (omega arith, ground (arith, digits, range)))

three_bytes :
    (b b₁ b₂ : ℕ) (rest : Bytes)
    → InRows 3 (b ∷ b₁ ∷ b₂ ∷ rest) high_ranges
    → (c : ℕ) × StartsWith c (b ∷ b₁ ∷ b₂ ∷ rest) rest
unfolding char_bytes
three_bytes b b₁ b₂ rest r =
    let c = (b - 224) * 4096 + (b₁ - 128) * 64 + (b₂ - 128) in
    let range : (2048 ≤ c) × (c < 65536) = omega arith in
    let digits : (b ≡ 224 + c / 4096) × (b₁ ≡ 128 + c / 64 % 64) × (b₂ ≡ 128 + c % 64) =
      omega arith in
    (c, (omega arith, ground (arith, digits, range)))

four_bytes :
    (b b₁ b₂ b₃ : ℕ) (rest : Bytes)
    → InRows 4 (b ∷ b₁ ∷ b₂ ∷ b₃ ∷ rest) high_ranges
    → (c : ℕ) × StartsWith c (b ∷ b₁ ∷ b₂ ∷ b₃ ∷ rest) rest
unfolding char_bytes
four_bytes b b₁ b₂ b₃ rest r =
    let c = (b - 240) * 262144 + (b₁ - 128) * 4096 + (b₂ - 128) * 64 + (b₃ - 128) in
    let range : (65536 ≤ c) × (c < 1114112) = omega arith in
    let digits : (b ≡ 240 + c / 262144)
        × (b₁ ≡ 128 + c / 4096 % 64)
        × (b₂ ≡ 128 + c / 64 % 64)
        × (b₃ ≡ 128 + c % 64) =
      omega arith in
    (c, (omega arith, ground (arith, digits, range)))

-- A character of more than one byte is accepted by one of the later rows.
char_validate_later :
    (signed : Bool) (b : ℕ) (cur : Bytes)
    → 128 ≤ b
    → b < 256
    → char_validate signed (b ∷ cur) ≡ (
        if ltb (length (b ∷ cur)) (char_len b)
        then none
        else if check_rows signed (char_len b) (b ∷ cur) high_ranges
        then some (drop (char_len b) (b ∷ cur))
        else none)
unfolding char_validate
char_validate_later signed b cur lo hi =
    let long : 1 < char_len b = rw (char_len_lem b hi) (ground arith) in
    rw (check_rows_later signed (char_len b) (b ∷ cur) long)

char_validate_first :
    (signed : Bool) (b : ℕ) (cur : Bytes) → b < 128 → char_validate signed (b ∷ cur) ≡ some cur
unfolding char_validate
char_validate_first signed b cur h =
    let one : char_len b ≡ 1 = rw (char_len_lem b (omega arith)) (ground arith) in
    let short : ltb (length (b ∷ cur)) 1 ≡ false = ground arith in
    rw (one, short, check_rows_first signed b cur h)

accept_inv :
    (short good : Bool) (behind rest : Bytes)
    → (if short then none else if good then some behind else none) ≡ some rest
    → (short ≡ false) × (good ≡ true) × (rest ≡ behind)
accept_inv true good behind rest e = cc
accept_inv false true behind rest e = (refl, refl, cc)
accept_inv false false behind rest e = cc

-- The length of a character, and the rows for it.
abbrev Accepted : (n b : ℕ) → (cur rest : Bytes) → Type 0
Accepted n b cur rest =
    (n ≤ length (b ∷ cur)) × InRows n (b ∷ cur) high_ranges × (rest ≡ drop n (b ∷ cur))

Accepted-later :
    (signed : Bool) (n b : ℕ) (cur rest : Bytes)
    → 128 ≤ b
    → AllBytes (b ∷ cur)
    → char_len b ≡ n
    → char_validate signed (b ∷ cur) ≡ some rest
    → Accepted n b cur rest
Accepted-later signed n b cur rest lo bytes sized e =
    let step = rw (char_validate_later signed b cur lo bytes.0, sized) at e in
    let (to, from) = check_rows_iff signed n (b ∷ cur) high_ranges high_ranges-IsHigh bytes in
    let (fits, good, same) = accept_inv (ltb (length (b ∷ cur)) n) _ _ rest step in
    (ground arith, to good, same)

one_byte :
    (signed : Bool) (b : ℕ) (cur rest : Bytes)
    → b < 128
    → char_validate signed (b ∷ cur) ≡ some rest
    → StartsWith b (b ∷ cur) rest
unfolding char_bytes
one_byte signed b cur rest h e =
    let same : cur ≡ rest = cc (char_validate_first signed b cur h, e) in
    (omega arith, ground (arith, same))

-- The front of the string has as many bytes as the row.
long_front :
    (n b : ℕ) (cur rest : Bytes)
    → 1 < n
    → n ≤ 4
    → Accepted n b cur rest
    → (c : ℕ) × StartsWith c (b ∷ cur) rest
long_front (suc (suc zero)) b (b₁ ∷ cur) rest h h' (fits, r, same) = rw same (two_bytes b b₁ cur r)
long_front (suc (suc (suc zero))) b (b₁ ∷ b₂ ∷ cur) rest h h' (fits, r, same) =
    rw same (three_bytes b b₁ b₂ cur r)
long_front (suc (suc (suc (suc zero)))) b (b₁ ∷ b₂ ∷ b₃ ∷ cur) rest h h' (fits, r, same) =
    rw same (four_bytes b b₁ b₂ b₃ cur r)
long_front zero b cur rest h h' a = absurd (omega arith)
long_front (suc zero) b cur rest h h' a = absurd (omega arith)
long_front (suc (suc zero)) b [] rest h h' a = absurd (omega (arith, a.0))
long_front (suc (suc (suc zero))) b [] rest h h' a = absurd (omega (arith, a.0))
long_front (suc (suc (suc zero))) b (b₁ ∷ []) rest h h' a = absurd (omega (arith, a.0))
long_front (suc (suc (suc (suc zero)))) b [] rest h h' a = absurd (omega (arith, a.0))
long_front (suc (suc (suc (suc zero)))) b (b₁ ∷ []) rest h h' a = absurd (omega (arith, a.0))
long_front (suc (suc (suc (suc zero)))) b (b₁ ∷ b₂ ∷ []) rest h h' a = absurd (omega (arith, a.0))
long_front (suc (suc (suc (suc (suc n))))) b cur rest h h' a = absurd (omega arith)

-- What `UTF8_char_validate` accepts is the encoding of a scalar value, and what it returns is what
-- lies behind it.
pub char_validate_sound :
    (signed : Bool) (cur rest : Bytes)
    → AllBytes cur
    → char_validate signed cur ≡ some rest
    → (c : ℕ) × StartsWith c cur rest
char_validate_sound signed [] rest bytes e = unfold char_validate in cc
char_validate_sound signed (b ∷ cur) rest bytes e = elim (dec_lt b 128) [
  | yes low ↦ (b, one_byte signed b cur rest low e)
  | no high ↦
      let sized = char_len_lem b bytes.0 in
      long_front (char_len b) b cur rest (rw sized (ground arith)) (rw sized (ground arith))
        (Accepted-later signed (char_len b) b cur rest (omega arith) bytes refl e)
]

abbrev bytes_three : (c : ℕ) → Bytes → Bytes
bytes_three c rest = (224 + c / 4096) ∷ (128 + c / 64 % 64) ∷ (128 + c % 64) ∷ rest

abbrev bytes_four : (c : ℕ) → Bytes → Bytes
bytes_four c rest =
    (240 + c / 262144) ∷ (128 + c / 4096 % 64) ∷ (128 + c / 64 % 64) ∷ (128 + c % 64) ∷ rest

rows_three :
    (c : ℕ) (rest : Bytes)
    → 0x800 ≤ c
    → c < 0x10000
    → IsScalar c
    → InRows 3 (bytes_three c rest) high_ranges
rows_three c rest lo hi is = elim (dec_lt c 0x1000) [
  | yes e0 ↦ inr (inl (refl, ground arith))
  | no later ↦ elim (dec_lt c 0xD000) [
    | yes ec ↦ inr (inr (inl (refl, ground arith)))
    | no later ↦ elim (dec_lt c 0xE000) [
      | yes ed ↦ inr (inr (inr (inl (refl, ground arith))))
      | no later ↦ inr (inr (inr (inr (inl (refl, ground arith)))))
    ]
  ]
]

rows_four :
    (c : ℕ) (rest : Bytes) → 0x10000 ≤ c → IsScalar c → InRows 4 (bytes_four c rest) high_ranges
rows_four c rest lo is = elim (dec_lt c 0x40000) [
  | yes f0 ↦ inr (inr (inr (inr (inr (inl (refl, ground arith))))))
  | no later ↦ elim (dec_lt c 0x100000) [
    | yes f3 ↦ inr (inr (inr (inr (inr (inr (inl (refl, ground arith)))))))
    | no later ↦ inr (inr (inr (inr (inr (inr (inr (inl (refl, ground arith))))))))
  ]
]

-- The encoding of a scalar value is one of the rows' characters.
char_bytes-InRows :
    (c : ℕ) (rest : Bytes)
    → 128 ≤ c
    → IsScalar c
    → (b : ℕ) × (cur : Bytes) × (char_bytes c ++ rest ≡ b ∷ cur)
      × (128 ≤ b)
      × (b < 256)
      × Accepted (char_len b) b cur rest
unfolding char_bytes
char_bytes-InRows c rest lo is = elim (dec_lt c 0x800) [
  | yes two ↦
      let b = 192 + c / 64 in
      let sized : char_len b ≡ 2 = rw (char_len_lem b (omega arith)) (ground arith) in
      (
        b,
        (128 + c % 64) ∷ rest,
        ground arith,
        omega arith,
        omega arith,
        rw sized (omega arith, inl (refl, ground arith), refl),
      )
  | no more ↦ elim (dec_lt c 0x10000) [
    | yes three ↦
        let row = rows_three c rest (omega arith) three is in
        let b = 224 + c / 4096 in
        let sized : char_len b ≡ 3 = rw (char_len_lem b (omega arith)) (ground arith) in
        (
          b,
          (128 + c / 64 % 64) ∷ (128 + c % 64) ∷ rest,
          ground arith,
          omega arith,
          omega arith,
          rw sized (omega arith, row, refl),
        )
    | no four ↦
        let row = rows_four c rest (omega arith) is in
        let b = 240 + c / 262144 in
        let sized : char_len b ≡ 4 = rw (char_len_lem b (omega arith)) (ground arith) in
        (
          b,
          (128 + c / 4096 % 64) ∷ (128 + c / 64 % 64) ∷ (128 + c % 64) ∷ rest,
          ground arith,
          omega arith,
          omega arith,
          rw sized (omega arith, row, refl),
        )
  ]
]

Accepted-back :
    (signed : Bool) (b : ℕ) (cur rest : Bytes)
    → 128 ≤ b
    → AllBytes (b ∷ cur)
    → Accepted (char_len b) b cur rest
    → char_validate signed (b ∷ cur) ≡ some rest
Accepted-back signed b cur rest lo bytes (fits, row, same) =
    let (to, from) =
      check_rows_iff signed (char_len b) (b ∷ cur) high_ranges high_ranges-IsHigh bytes in
    let long : ltb (length (b ∷ cur)) (char_len b) ≡ false = ground arith in
    rw (char_validate_later signed b cur lo bytes.0, long, from row, same)

pub char_bytes-AllBytes : (c : ℕ) → IsScalar c → AllBytes (char_bytes c)
unfolding char_bytes
char_bytes-AllBytes c is = ground arith

-- The encoding of a scalar value is accepted, and what lies behind it is returned.
pub char_validate-char_bytes :
    (signed : Bool) (c : ℕ) (rest : Bytes)
    → IsScalar c
    → AllBytes rest
    → char_validate signed (char_bytes c ++ rest) ≡ some rest
char_validate-char_bytes signed c rest is bytes = elim (dec_lt c 128) [
  | yes low ↦
      let one : char_bytes c ≡ c ∷ [] = unfold char_bytes in ground arith in
      rw one (char_validate_first signed c rest low)
  | no high ↦
      let all = All-append IsByte (char_bytes c) rest (char_bytes-AllBytes c is) bytes in
      let (b, cur, front, lo, hi, accepted) = char_bytes-InRows c rest (omega arith) is in
      rw front (Accepted-back signed b cur rest lo (rw front at all) accepted)
]

pub length-char_bytes : (c : ℕ) → 1 ≤ length (char_bytes c)
unfolding char_bytes
length-char_bytes c = ground arith
