-- ===== src/Socket/Resume.antt =====
-- Interrupted writes: what is left of the buffers, and how it goes out in the end.
use mqtt_client.Prelude.{
  Bool-cases, List, [], ap, arith, drop, inl, inr, leb, leb→le, length, length-drop, ltb, refl, suc,
  sym, take, zero, ℕ, ◌++◌, ◌+◌, ◌-◌, ◌∙◌, ◌∷◌, ◌≡◌, ◌≤◌,
}
use mqtt_client.Prelude.Predicates.{All, Bytes}
use mqtt_client.Socket.{flatten, remaining}
use mqtt_client.SocketBuffer.{Iobuf}
use mqtt_client.SocketBuffer.Consistent.{le→leb}

-- The lengths of the buffers are true.
abbrev pub AreFull : List Iobuf → Type 0
AreFull = All (λ v. v.iov_len ≡ length v.iov_base)

take-all : (xs : Bytes) → take (length xs) xs ≡ xs
take-all [] = refl
take-all (x ∷ xs) = ap (λ (l : Bytes). x ∷ l) (take-all xs)

drop-append_left : (n : ℕ) (xs ys : Bytes) → n ≤ length xs → drop n (xs ++ ys) ≡ drop n xs ++ ys
drop-append_left zero xs ys h = refl
drop-append_left (suc n) [] ys h = absurd (omega arith)
drop-append_left (suc n) (x ∷ xs) ys h = drop-append_left n xs ys (omega arith)

drop-append_right :
    (n : ℕ) (xs ys : Bytes) → length xs ≤ n → drop n (xs ++ ys) ≡ drop (n - length xs) ys
drop-append_right n [] ys h = ap (λ (m : ℕ). drop m ys) (omega arith)
drop-append_right zero (x ∷ xs) ys h = absurd (omega arith)
drop-append_right (suc n) (x ∷ xs) ys h =
    drop-append_right n xs ys (omega arith) ∙ ap (λ (m : ℕ). drop m ys) (omega arith)

pub flatten-nil : flatten [] ≡ []
unfolding flatten
flatten-nil = refl

pub flatten-full :
    (v : Iobuf) (vs : List Iobuf)
    → v.iov_len ≡ length v.iov_base
    → flatten (v ∷ vs) ≡ v.iov_base ++ flatten vs
unfolding flatten
flatten-full v vs e = rw (e, take-all v.iov_base) refl

remaining_done : (bytes cur : ℕ) (vs : List Iobuf) → bytes ≤ cur → remaining bytes cur vs ≡ vs
unfolding remaining
remaining_done bytes cur [] h = refl
remaining_done bytes cur (v ∷ vs) h =
    rw (le→leb bytes cur h, remaining_done bytes (cur + v.iov_len) vs (omega arith)) refl

drop-nil : (n : ℕ) → drop {A = ℕ} n [] ≡ []
drop-nil zero = refl
drop-nil (suc n) = refl

flatten_part :
    (k : ℕ) (v : Iobuf) (vs : List Iobuf)
    → v.iov_len ≡ length v.iov_base
    → flatten (record { iov_base = drop k v.iov_base; iov_len = v.iov_len - k } ∷ vs)
      ≡ drop k v.iov_base ++ flatten vs
flatten_part k v vs e =
    flatten-full (record { iov_base = drop k v.iov_base; iov_len = v.iov_len - k }) vs
      (omega (arith, e, length-drop k v.iov_base))

-- What is left is what has not been written.
pub remaining-drop :
    (bytes cur : ℕ) (vs : List Iobuf)
    → AreFull vs
    → flatten (remaining bytes cur vs) ≡ drop (bytes - cur) (flatten vs)
unfolding remaining
remaining-drop bytes cur [] full =
    flatten-nil ∙ sym (drop-nil (bytes - cur)) ∙ ap (drop (bytes - cur)) (sym flatten-nil)
remaining-drop bytes cur (v ∷ vs) (e, full) = elim (Bool-cases (leb bytes cur)) [
  | inl left ↦
      let h = leb→le bytes cur left in
      let none_gone : 0 ≡ bytes - cur = omega arith in
      ap flatten (remaining_done bytes cur (v ∷ vs) h)
      ∙ ap (λ (m : ℕ). drop m (flatten (v ∷ vs))) none_gone
  | inr begun ↦ elim (Bool-cases (ltb bytes (cur + v.iov_len))) [
    | inl inside ↦
        let rest = remaining_done bytes (cur + v.iov_len) vs (ground arith) in
        rw (begun, inside, rest, flatten_part (bytes - cur) v vs e, flatten-full v vs e)
          (sym (drop-append_left (bytes - cur) v.iov_base (flatten vs) (ground arith)))
    | inr gone ↦
        let m : bytes - (cur + v.iov_len) ≡ bytes - cur - length v.iov_base = omega (arith, e) in
        rw (begun, gone, flatten-full v vs e, remaining-drop bytes (cur + v.iov_len) vs full)
          (ap (λ (k : ℕ). drop k (flatten vs)) m
            ∙ sym (drop-append_right (bytes - cur) v.iov_base (flatten vs) (ground arith)))
  ]
]
