-- ===== src/RemainingLength/Encode.antt =====
-- What `MQTTPacket_encode` writes, by a recursion of its own, and how many bytes that is.
use mathlib.Core.List.{append_assoc}
use mathlib.Core.WellFounded.{Acc}
use mqtt_client.Prelude.{
  [], arith, if◌then◌else◌, ltb, refl, suc, zero, ℕ, ◌%◌, ◌++◌, ◌+◌, ◌/◌, ◌<◌, ◌^◌, ◌∷◌, ◌≡◌, ◌≤◌,
}
use mqtt_client.Prelude.Bits.{bit_or_0x80}
use mqtt_client.Prelude.Int.{pos}
use mqtt_client.Prelude.Predicates.{Bytes}
use mqtt_client.RemainingLength.{encode, encode_count, encode_loop, vbi_len}

-- The groups of seven bits of `n`, lowest first, for `n` below 128 ^ (k + 1).
unfoldable pub groups : ℕ → ℕ → Bytes
groups zero n = n ∷ []
groups (suc k) n =
    let rest = groups k (n / 128) in if ltb n 128 then n ∷ [] else (n % 128 + 128) ∷ rest

pub groups_last : (k n : ℕ) → n < 128 → groups k n ≡ n ∷ []
unfolding groups
groups_last zero n h = refl
groups_last (suc k) n h = ground arith

pub groups_inner : (k n : ℕ) → 128 ≤ n → groups (suc k) n ≡ (n % 128 + 128) ∷ groups k (n / 128)
unfolding groups
groups_inner k n h = ground arith

encode_loop-groups :
    (k n : ℕ) (w : Acc ◌<◌ n) (buf : Bytes)
    → n < 128 ^ suc k
    → encode_loop n w buf ≡ buf ++ groups k n
unfolding encode_loop groups
encode_loop-groups zero n (Acc.intro _ smaller) buf h = ground arith
encode_loop-groups (suc k) n (Acc.intro _ smaller) buf h =
    let head : Bytes = (n % 128 + 128) ∷ [] in
    grind (
      arith,
      bit_or_0x80 (n % 128),
      λ (w : Acc ◌<◌ (n / 128)). encode_loop-groups k (n / 128) w (buf ++ head) (omega arith),
      append_assoc buf head (groups k (n / 128)),
    )

pub encode-groups : (k n : ℕ) → n < 128 ^ suc k → encode n ≡ groups k n
unfolding encode
encode-groups k n h = encode_loop-groups k n _ [] h

-- Below 128 ^ 4, the largest remaining length of the protocol, `MQTTPacket_VBIlen` is the number of
-- bytes that `MQTTPacket_encode` writes.
pub vbi_len-encode : (n : ℕ) → n < 128 ^ 4 → encode_count n ≡ vbi_len (pos n)
unfolding vbi_len encode_count groups
vbi_len-encode n h = rw (encode-groups 3 n h) (ground arith)
