-- ===== src/Prelude/Bits.antt =====
-- Masks and joins of bit fields within one byte, as arithmetic. Each law is a table that evaluation
-- checks entry by entry.
use Prim.Native.Nat.{ℕ, zero, suc, ◌+◌, ◌*◌, ◌/◌, ◌%◌, ◌<◌, bit_and, bit_or, bit_xor}
use mathlib.Core.Path.{◌≡◌, refl}
use mathlib.Core.Bool.{Bool, true, false}
use mathlib.Core.Logic.{ite}
use native.Mathlib.Decide.{ℕ_discrete}
use native.Mathlib.Omega.{arith}

module _ (f g : ℕ → ℕ) where
  unfoldable pub agree_below : ℕ → Bool
  unfolding ℕ_discrete
  agree_below zero = true
  agree_below (suc n) = ite (ℕ_discrete (f n) (g n)) (agree_below n) false

  pub agree_below→eq : (n : ℕ) → agree_below n ≡ true → (i : ℕ) → i < n → f i ≡ g i
  unfolding agree_below
  agree_below→eq zero e i h = absurd (omega arith)
  agree_below→eq (suc n) e i h = ground (arith, agree_below→eq n (ground arith) i)

pub bit_and_0x80 : (b : ℕ) → b < 256 → bit_and b 0x80 ≡ b / 128 * 128
unfolding agree_below
bit_and_0x80 = agree_below→eq _ _ 256 refl

pub bit_and_0x7f : (b : ℕ) → b < 256 → bit_and b 0x7f ≡ b % 128
unfolding agree_below
bit_and_0x7f = agree_below→eq _ _ 256 refl

pub bit_or_0x80 : (b : ℕ) → b < 128 → bit_or b 0x80 ≡ b + 128
unfolding agree_below
bit_or_0x80 = agree_below→eq _ _ 128 refl

pub bit_and_0xf0 : (b : ℕ) → b < 256 → bit_and b 0xf0 ≡ b / 16 * 16
unfolding agree_below
bit_and_0xf0 = agree_below→eq _ _ 256 refl

pub bit_and_0x0f : (b : ℕ) → b < 256 → bit_and b 0x0f ≡ b % 16
unfolding agree_below
bit_and_0x0f = agree_below→eq _ _ 256 refl

pub bit_and_0xe0 : (b : ℕ) → b < 256 → bit_and b 0xe0 ≡ b / 32 * 32
unfolding agree_below
bit_and_0xe0 = agree_below→eq _ _ 256 refl

pub bit_and_0xfc : (b : ℕ) → b < 256 → bit_and b 0xfc ≡ b / 4 * 4
unfolding agree_below
bit_and_0xfc = agree_below→eq _ _ 256 refl

pub bit_and_0x03 : (b : ℕ) → b < 256 → bit_and b 0x03 ≡ b % 4
unfolding agree_below
bit_and_0x03 = agree_below→eq _ _ 256 refl

pub bit_and_0xc0 : (b : ℕ) → b < 256 → bit_and b 0xc0 ≡ b / 64 * 64
unfolding agree_below
bit_and_0xc0 = agree_below→eq _ _ 256 refl

pub bit_and_0x3f : (b : ℕ) → b < 256 → bit_and b 0x3f ≡ b % 64
unfolding agree_below
bit_and_0x3f = agree_below→eq _ _ 256 refl

-- `x | y` where the bits of `x` are multiples of 4, 16 or 64 and those of `y` lie below.
pub bit_or_at_4 : (n : ℕ) → n < 256 → bit_or (n / 4 * 4) (n % 4) ≡ n
unfolding agree_below
bit_or_at_4 = agree_below→eq (λ n. bit_or (n / 4 * 4) (n % 4)) (λ n. n) 256 refl

pub bit_or_at_16 : (n : ℕ) → n < 256 → bit_or (n / 16 * 16) (n % 16) ≡ n
unfolding agree_below
bit_or_at_16 = agree_below→eq (λ n. bit_or (n / 16 * 16) (n % 16)) (λ n. n) 256 refl

pub bit_or_at_64 : (n : ℕ) → n < 256 → bit_or (n / 64 * 64) (n % 64) ≡ n
unfolding agree_below
bit_or_at_64 = agree_below→eq (λ n. bit_or (n / 64 * 64) (n % 64)) (λ n. n) 256 refl

ite_ℕ : Bool → ℕ
ite_ℕ true = 0
ite_ℕ false = 1

ite_ℕ_inv : (b : Bool) → ite_ℕ b ≡ 0 → b ≡ true
unfolding ite_ℕ
ite_ℕ_inv true e = refl
ite_ℕ_inv false e = absurd (omega arith)

-- A mask that is applied twice is taken off again.
unmask_row : ℕ → ℕ
unfolding agree_below ite_ℕ
unmask_row m = ite_ℕ (agree_below (λ a. bit_xor (bit_xor a m) m) (λ a. a) 256)

pub bit_xor_twice : (a m : ℕ) → a < 256 → m < 256 → bit_xor (bit_xor a m) m ≡ a
unfolding agree_below unmask_row ite_ℕ
bit_xor_twice a m ha hm =
    agree_below→eq (λ a. bit_xor (bit_xor a m) m) (λ a. a) 256
      (row (agree_below→eq unmask_row (λ m. 0) 256 refl m hm)) a ha
  where
    row : unmask_row m ≡ 0 → agree_below (λ a. bit_xor (bit_xor a m) m) (λ a. a) 256 ≡ true
    row e = ite_ℕ_inv _ e
