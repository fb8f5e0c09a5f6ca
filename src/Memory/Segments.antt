-- ===== src/Memory/Segments.antt =====
-- Doubly linked segments: what a chain of elements stands for.
use mathlib.Core.Bool.{or_assoc}
use mqtt_client.Memory.{Elements, ListElement, Ptr, element, null, write}
use mqtt_client.Memory.Points.{Points}
use mqtt_client.Prelude.{
  Bool, Bool-cases, List, Option, [], ap, arith, false, if◌then◌else◌, inl, inr, none, refl, some,
  true, ◌++◌, ◌==◌, ◌||◌, ◌∷◌, ◌≡◌,
}

-- Address and content of each element, in order.
abbrev pub Cells : Type 0
Cells = List (Ptr × Ptr)

-- Whether one of the cells stands at the address.
abbrev pub among : Ptr → Cells → Bool
among at [] = false
among at ((p, c) ∷ rest) = (at == p) || among at rest

infix 40 ◌∉◌ ◌∈◌
abbrev pub ◌∉◌ : Ptr → Cells → Type 0
at ∉ cells = among at cells ≡ false

abbrev pub ◌∈◌ : Ptr → Cells → Type 0
at ∈ cells = among at cells ≡ true

-- No address is in both.
abbrev pub Disjoint : (front back : Cells) → Type 0
Disjoint front back = (at : Ptr) → at ∈ front → at ∉ back

-- The address of the last cell, or `b` where there is none.
abbrev pub last_of : Ptr → Cells → Ptr
last_of b [] = b
last_of b ((p, _) ∷ xs) = last_of p xs

-- The cells in front of the one at `a`, those behind it, and the list without it.
unfoldable pub before : Ptr → Cells → Cells
before a [] = []
before a ((p, c) ∷ xs) = if a == p then [] else (p, c) ∷ before a xs

unfoldable pub after : Ptr → Cells → Cells
after a [] = []
after a ((p, c) ∷ xs) = if a == p then xs else after a xs

unfoldable pub erase : Ptr → Cells → Cells
erase a [] = []
erase a ((p, c) ∷ xs) = if a == p then xs else (p, c) ∷ erase a xs

-- The content of the cell at `a`, `NULL` where there is none.
unfoldable pub content_at : Ptr → Cells → Ptr
content_at a [] = null
content_at a ((p, c) ∷ xs) = if a == p then c else content_at a xs

-- From `p`, whose predecessor is `b`, the `next` pointers lead through the distinct elements `xs`
-- to `stop`, and each `prev` pointer leads back to the element before.
pub data Seg (es : Elements) (stop : Ptr) : Ptr → Ptr → Cells → Type 0 where
  nil : {b : Ptr} → Seg es stop b stop []
  cons :
      {b p q c : Ptr} {xs : Cells}
      → Points es p b q c
      → p ∉ xs
      → Seg es stop p q xs
      → Seg es stop b p ((p, c) ∷ xs)

pub among-append :
    (at : Ptr) (front back : Cells) → among at (front ++ back) ≡ (among at front || among at back)
among-append at [] back = refl
among-append at (cell ∷ front) back = rw (among-append at front back, or_assoc)

pub last_of-append : (b : Ptr) (xs ys : Cells) → last_of b (xs ++ ys) ≡ last_of (last_of b xs) ys
last_of-append b [] ys = refl
last_of-append b ((p, _) ∷ xs) ys = last_of-append p xs ys

module _ {es : Elements} {stop : Ptr} where
  -- Writes elsewhere leave a segment as it is.
  pub spared :
      {gs : Elements} {b p : Ptr} {cells : Cells}
      → Seg es stop b p cells
      → ((at : Ptr) → at ∈ cells → gs at ≡ es at)
      → Seg gs stop b p cells
  spared nil kept = nil
  spared (cons {p} here out behind) kept =
      cons (ground (arith, kept p)) out (spared behind (λ at i. kept at (ground arith)))

  pub spared-write :
      {b p : Ptr} {cells : Cells} (at : Ptr) (new : Option ListElement)
      → Seg es stop b p cells
      → at ∉ cells
      → Seg (write es at new) stop b p cells
  unfolding write
  spared-write at new s out = spared s (ground arith)

  pub append :
      {end b p : Ptr} {ys : Cells} (xs : Cells)
      → Seg es stop b p xs
      → Seg es end (last_of b xs) stop ys
      → Disjoint xs ys
      → Seg es end b p (xs ++ ys)
  append [] nil t apart = t
  append ((p, c) ∷ xs) (cons e out s) t apart =
      cons e (rw (among-append, out) (apart p (ground arith)))
        (append xs s t λ a i. apart a (ground arith))

  pub unused-not-mem :
      {b p : Ptr} {cells : Cells} (at : Ptr) → Seg es stop b p cells → es at ≡ none → at ∉ cells
  unused-not-mem at nil e = refl
  unused-not-mem at (cons here out behind) e = ground (arith, unused-not-mem at behind e)

  pub null-not-mem : {b p : Ptr} {xs : Cells} → Seg es stop b p xs → null ∉ xs
  null-not-mem nil = refl
  null-not-mem (cons e out s) = ground (arith, null-not-mem s)

  -- The last element's `next` pointer is led elsewhere.
  pub redirect :
      {b p : Ptr} (x : Ptr × Ptr) (xs : Cells) (q : Ptr)
      → Seg es stop b p (x ∷ xs)
      → (b' : Ptr) × (c : Ptr) × Points es (last_of b (x ∷ xs)) b' stop c
        × (last_of b (x ∷ xs) ∈ x ∷ xs)
        × Seg (write es (last_of b (x ∷ xs)) (some (element b' q c))) q b p (x ∷ xs)
  unfolding write
  redirect {b} (p, c) [] q (cons e out nil) = (b, c, e, ground arith, cons (ground arith) refl nil)
  redirect (p, c) (y ∷ ys) q (cons e out s) =
      let (b', c', e', i, t) = redirect y ys q s in
      (b', c', e', ground arith, cons (ground arith) out t)

pub write-not-mem :
    (es : Elements) (c : Option ListElement) (xs : Cells) (a p : Ptr)
    → a ∉ xs
    → p ∈ xs
    → write es p c a ≡ es a
unfolding write
write-not-mem es c xs a p out i = elim (Bool-cases (a == p)) [
  | inl here ↦ let same : p ≡ a = ground arith in cc (out, i, ap (λ (x : Ptr). among x xs) same)
  | inr other ↦ rw other refl
]

pub ne_of_mem : (xs : Cells) (x a : Ptr) → x ∈ xs → a ∉ xs → (x == a) ≡ false
ne_of_mem xs x a i out = elim (Bool-cases (x == a)) [
  | inl here ↦ let same : x ≡ a = ground arith in cc (i, out, ap (λ (y : Ptr). among y xs) same)
  | inr other ↦ other
]

pub ne_of_not-mem : (xs : Cells) (x a : Ptr) → x ∉ xs → a ∈ xs → (x == a) ≡ false
ne_of_not-mem xs x a out i = ground (arith, ne_of_mem xs a x i out)

-- Writes at one address leave the others.
pub write-other :
    (es : Elements) (p : Ptr) (c : Option ListElement) (a : Ptr)
    → (a == p) ≡ false
    → write es p c a ≡ es a
unfolding write
write-other es p c a n = ground arith

pub write3 :
    (es : Elements) (p : Ptr) (c d e : Option ListElement) (a : Ptr)
    → (a == p) ≡ false
    → write (write (write es p c) p d) p e a ≡ es a
unfolding write
write3 es p c d e a n = ground arith

pub write_self : (es : Elements) (p : Ptr) (c : Option ListElement) → write es p c p ≡ c
unfolding write
write_self es p c = ground arith

pub write_at :
    (es : Elements) (p : Ptr) (c : Option ListElement) (a : Ptr)
    → write es p c a ≡ (if a == p then c else es a)
unfolding write
write_at es p c a = refl
