-- ===== src/Prelude/Run.antt =====
-- The outcome of C code that may leave its defined behaviour: a read or write outside an object,
-- or the release of a pointer that `malloc` did not return.
use mqtt_client.Prelude.{refl, ◌≡◌}

pub data Run {ℓ} (A : Type ℓ) : Type ℓ where
  done : A → Run A
  fault : Run A

infixl 5 ◌>>=◌
abbrev pub ◌>>=◌ {ℓ κ} : {A : Type ℓ} {B : Type κ} → Run A → (A → Run B) → Run B
done a >>= f = f a
fault >>= f = fault

pub done_inv {ℓ κ} :
    {A : Type ℓ} {B : Type κ} (m : Run A) (f : A → Run B) {b : B}
    → (m >>= f) ≡ done b
    → (a : A) × (m ≡ done a) × (f a ≡ done b)
done_inv (done a) f h = (a, refl, h)
done_inv fault f h = cc

module _ {A B C : Type 0} where
  pub bind_assoc :
      (m : Run A) (f : A → Run B) (g : B → Run C) → (m >>= f >>= g) ≡ (m >>= λ a. f a >>= g)
  bind_assoc (done a) f g = refl
  bind_assoc fault f g = refl

pub bind_cong :
    {A B : Type 0} (m : Run A) (f g : A → Run B) → ((a : A) → f a ≡ g a) → (m >>= f) ≡ (m >>= g)
bind_cong (done a) f g h = h a
bind_cong fault f g h = refl

pub done-injective {ℓ} : {A : Type ℓ} {a b : A} → done a ≡ done b → a ≡ b
done-injective e = cc

pub bind_fault :
    {A B : Type 0} (m : Run A) (f : A → Run B) → ((a : A) → f a ≡ fault) → (m >>= f) ≡ fault
bind_fault (done a) f h = h a
bind_fault fault f h = refl

-- A run that ends, with a property of its result.
pub data Ends {A : Type 0} (P : A → Type 0) : Run A → Type 0 where
  ends : {a : A} → P a → Ends P (done a)

pub Ends-inv : {A : Type 0} {P : A → Type 0} {r : Run A} → Ends P r → (a : A) × (r ≡ done a) × P a
Ends-inv (ends {a} p) = (a, refl, p)
