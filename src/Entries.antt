-- ===== src/Entries.antt =====
-- Lists with one entry for a key, as the search of utils/LinkedList.c by a callback reads them.
use mathlib.Core.Path.{subst}
use mqtt_client.Prelude.{
  Bool-cases, List, Option, [], ap, arith, if◌then◌else◌, inl, inr, none, refl, some, sym, true, ℕ,
  ◌++◌, ◌==◌, ◌∙◌, ◌∷◌, ◌≡◌, ◌≢◌,
}
use mqtt_client.Prelude.Predicates.{All}

pub some-injective : {A : Type 0} {a b : A} → some a ≡ some b → a ≡ b
some-injective e = cc

module _ {A : Type 0} (key : A → ℕ) where
  unfoldable pub find_entry : ℕ → List A → Option A
  find_entry s [] = none
  find_entry s (x ∷ xs) = if key x == s then some x else find_entry s xs

  unfoldable pub set_entry : ℕ → A → List A → List A
  set_entry s y [] = []
  set_entry s y (x ∷ xs) = if key x == s then y ∷ xs else x ∷ set_entry s y xs

  unfoldable pub drop_entry : ℕ → List A → List A
  drop_entry s [] = []
  drop_entry s (x ∷ xs) = if key x == s then xs else x ∷ drop_entry s xs

  -- No key has two entries.
  abbrev pub Unique : List A → Type 0
  Unique [] = Unit
  Unique (x ∷ xs) = (find_entry (key x) xs ≡ none) × Unique xs

  pub find-key : (s : ℕ) (xs : List A) (a : A) → find_entry s xs ≡ some a → key a ≡ s
  unfolding find_entry
  find-key s [] a h = cc
  find-key s (x ∷ xs) a h = ground (arith, find-key s xs a)

  pub find-set :
      (s t : ℕ) (y : A) (xs : List A)
      → key y ≡ s
      → find_entry t (set_entry s y xs) ≡ (
          if t == s
          then elim (find_entry s xs) [ none ↦ none | some _ ↦ some y ]
          else find_entry t xs)
  unfolding find_entry set_entry
  find-set s t y [] k = ground arith
  find-set s t y (x ∷ xs) k = ground (arith, find-set s t y xs)

  pub find-append :
      (s : ℕ) (xs : List A) (y : A)
      → find_entry s (xs ++ y ∷ [])
        ≡ elim (find_entry s xs) [ none ↦ (if key y == s then some y else none) | some x ↦ some x ]
  unfolding find_entry
  find-append s [] y = refl
  find-append s (x ∷ xs) y = ground (arith, find-append s xs y)

  pub find-drop_other :
      (s t : ℕ) (xs : List A) → t ≢ s → find_entry t (drop_entry s xs) ≡ find_entry t xs
  unfolding find_entry drop_entry
  find-drop_other s t [] n = refl
  find-drop_other s t (x ∷ xs) n = ground (arith, find-drop_other s t xs)

  pub find-drop_self : (s : ℕ) (xs : List A) → Unique xs → find_entry s (drop_entry s xs) ≡ none
  unfolding find_entry drop_entry
  find-drop_self s [] u = refl
  find-drop_self s (x ∷ xs) (out, u) = elim (Bool-cases (key x == s)) [
    | inl here ↦
        let e : key x ≡ s = ground arith in
        rw here (subst (λ (k : ℕ). find_entry k xs ≡ none) e out)
    | inr other ↦ rw (other, other) (find-drop_self s xs u)
  ]

  pub drop-append :
      (s : ℕ) (xs : List A) (y : A)
      → key y ≡ s
      → find_entry s xs ≡ none
      → drop_entry s (xs ++ y ∷ []) ≡ xs
  unfolding find_entry drop_entry
  drop-append s [] y k out = ground arith
  drop-append s (x ∷ xs) y k out = ground (arith, drop-append s xs y)

  pub set-set :
      (s : ℕ) (xs : List A) (x y : A)
      → key y ≡ s
      → find_entry s xs ≡ some x
      → set_entry s x (set_entry s y xs) ≡ xs
  unfolding find_entry set_entry
  set-set s [] x y k e = refl
  set-set s (z ∷ xs) x y k e = elim (Bool-cases (key z == s)) [
    | inl here ↦
        let yes : (key y == s) ≡ true = ground arith in
        rw (here, yes) (ap (λ w. w ∷ xs) (sym (some-injective (rw here at e))))
    | inr other ↦ rw (other, other) (ap (λ ws. z ∷ ws) (set-set s xs x y k (rw other at e)))
  ]

  pub set-Unique : (s : ℕ) (y : A) (xs : List A) → key y ≡ s → Unique xs → Unique (set_entry s y xs)
  unfolding set_entry
  set-Unique s y [] k u = tt
  set-Unique s y (x ∷ xs) k (out, u) = elim (Bool-cases (key x == s)) [
    | inl here ↦
        let e : key x ≡ key y = ground arith in
        rw here (subst (λ (n : ℕ). find_entry n xs ≡ none) e out, u)
    | inr other ↦ rw other (find-set s (key x) y xs k ∙ rw other out, set-Unique s y xs k u)
  ]

  pub drop-Unique : (s : ℕ) (xs : List A) → Unique xs → Unique (drop_entry s xs)
  unfolding drop_entry
  drop-Unique s [] u = tt
  drop-Unique s (x ∷ xs) (out, u) = elim (Bool-cases (key x == s)) [
    | inl here ↦ rw here u
    | inr other ↦ rw other (find-drop_other s (key x) xs (ground arith) ∙ out, drop-Unique s xs u)
  ]

  pub append-Unique :
      (xs : List A) (y : A) → Unique xs → find_entry (key y) xs ≡ none → Unique (xs ++ y ∷ [])
  unfolding find_entry
  append-Unique [] y u out = (refl, tt)
  append-Unique (x ∷ xs) y (o, u) out =
      (find-append (key x) xs y ∙ rw o (ground arith), append-Unique xs y u (ground arith))

  module _ {κ} (P : A → Type κ) where
    pub find-All : (s : ℕ) (xs : List A) (a : A) → All P xs → find_entry s xs ≡ some a → P a
    unfolding find_entry
    find-All s [] a h e = cc
    find-All s (x ∷ xs) a (p, h) e = elim (Bool-cases (key x == s)) [
      | inl here ↦ subst P (some-injective (rw here at e)) p
      | inr other ↦ find-All s xs a h (rw other at e)
    ]

    pub set-All : (s : ℕ) (y : A) (xs : List A) → P y → All P xs → All P (set_entry s y xs)
    unfolding set_entry
    set-All s y [] py h = tt
    set-All s y (x ∷ xs) py (p, h) = elim (Bool-cases (key x == s)) [
      | inl here ↦ rw here (py, h)
      | inr other ↦ rw other (p, set-All s y xs py h)
    ]

    pub drop-All : (s : ℕ) (xs : List A) → All P xs → All P (drop_entry s xs)
    unfolding drop_entry
    drop-All s [] h = tt
    drop-All s (x ∷ xs) (p, h) = elim (Bool-cases (key x == s)) [
      | inl here ↦ rw here h
      | inr other ↦ rw other (p, drop-All s xs h)
    ]
