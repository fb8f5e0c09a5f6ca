-- ===== src/Utf8/Strings.antt =====
-- `UTF8_validate` accepts exactly the encodings of sequences of scalar values.
use mathlib.Core.Path.{subst}
use mqtt_client.Prelude.{
  Bool, List, Option-cases, [], arith, inl, inr, length, length-append, refl, some, suc, true, zero,
  ℕ, ◌++◌, ◌↔◌, ◌∙◌, ◌∷◌, ◌≡◌, ◌≤◌,
}
use mqtt_client.Prelude.Predicates.{All, All-append, AllBytes, Bytes, IsByte}
use mqtt_client.Utf8.{char_validate, validate, validate_loop}
use mqtt_client.Utf8.Characters.{
  IsScalar, StartsWith, char_bytes, char_bytes-AllBytes, char_validate-char_bytes,
  char_validate_sound, length-char_bytes,
}

-- The encoding of a sequence of code points.
unfoldable pub string_bytes : List ℕ → Bytes
string_bytes [] = []
string_bytes (c ∷ cs) = char_bytes c ++ string_bytes cs

abbrev pub IsUtf8 : Bytes → Type 0
IsUtf8 cur = (cs : List ℕ) × All IsScalar cs × (cur ≡ string_bytes cs)

All-suffix : (xs ys : Bytes) → AllBytes (xs ++ ys) → AllBytes ys
All-suffix [] ys h = h
All-suffix (x ∷ xs) ys (hx, h) = All-suffix xs ys h

-- A first character and a string behind it.
IsUtf8-cons : (c : ℕ) (cur rest : Bytes) → StartsWith c cur rest → IsUtf8 rest → IsUtf8 cur
unfolding string_bytes
IsUtf8-cons c cur rest (is, front) (cs, all, e) = (c ∷ cs, (is, all), rw (front, e))

-- The loop takes a character in each round, so that the length is enough fuel.
validate_loop_sound :
    (signed : Bool) (fuel : ℕ) (cur : Bytes)
    → AllBytes cur
    → validate_loop signed fuel (some cur) ≡ true
    → IsUtf8 cur
unfolding validate_loop string_bytes
validate_loop_sound signed fuel [] bytes e = ([], tt, refl)
validate_loop_sound signed zero (b ∷ cur) bytes e = cc
validate_loop_sound signed (suc fuel) (b ∷ cur) bytes e =
    elim (Option-cases (char_validate signed (b ∷ cur))) [
      | inl bad ↦ absurd (cc (rw (bad, validate_loop) at e))
      | inr (rest, good) ↦
          let (c, start) = char_validate_sound signed (b ∷ cur) rest bytes good in
          let behind = All-suffix (char_bytes c) rest (subst AllBytes start.1 bytes) in
          IsUtf8-cons c (b ∷ cur) rest start
            (validate_loop_sound signed fuel rest behind (rw (good, validate_loop) at e))
    ]

string_bytes-AllBytes : (cs : List ℕ) → All IsScalar cs → AllBytes (string_bytes cs)
unfolding string_bytes
string_bytes-AllBytes [] h = tt
string_bytes-AllBytes (c ∷ cs) (is, h) =
    All-append IsByte (char_bytes c) (string_bytes cs) (char_bytes-AllBytes c is)
      (string_bytes-AllBytes cs h)

validate_loop-front :
    (signed : Bool) (fuel c : ℕ) (cur rest : Bytes)
    → char_validate signed cur ≡ some rest
    → 1 ≤ length cur
    → length cur ≤ fuel
    → (fuel' : ℕ) × (fuel ≡ suc fuel')
      × (validate_loop signed fuel (some cur) ≡ validate_loop signed fuel' (some rest))
unfolding validate_loop
validate_loop-front signed fuel c [] rest e h h' = absurd (omega arith)
validate_loop-front signed zero c (b ∷ cur) rest e h h' = absurd (omega arith)
validate_loop-front signed (suc fuel) c (b ∷ cur) rest e h h' =
    (fuel, refl, rw (e, validate_loop) refl)

validate_loop-string_bytes :
    (signed : Bool) (fuel : ℕ) (cs : List ℕ)
    → All IsScalar cs
    → length (string_bytes cs) ≤ fuel
    → validate_loop signed fuel (some (string_bytes cs)) ≡ true
unfolding string_bytes
validate_loop-string_bytes signed fuel [] h fits = unfold validate_loop in refl
validate_loop-string_bytes signed fuel (c ∷ cs) (is, h) fits =
    let rest = string_bytes cs in
    let sum = length-append (char_bytes c) rest in
    let some_byte = length-char_bytes c in
    let (fuel', e, step) =
      validate_loop-front signed fuel c (char_bytes c ++ rest) rest
        (char_validate-char_bytes signed c rest is (string_bytes-AllBytes cs h)) (omega arith)
        fits in
    step ∙ validate_loop-string_bytes signed fuel' cs h (omega arith)

-- Whether `char` is signed or not, `UTF8_validate` accepts a string of bytes exactly if it is the
-- encoding of a sequence of Unicode scalar values: code points up to 0x10FFFF without the surrogates,
-- each in its shortest form.
pub validate_iff :
    (signed : Bool) (cur : Bytes) → AllBytes cur → (validate signed (some cur) ≡ true) ↔ IsUtf8 cur
unfolding validate
validate_iff signed cur bytes = (
  λ e. validate_loop_sound signed (length cur) cur bytes e,
  λ (cs, h, e).
      rw e (validate_loop-string_bytes signed (length (string_bytes cs)) cs h (omega arith)),
)
