-- ===== src/Memory/Splitting.antt =====
-- A segment taken apart at one of its elements.
use mathlib.Core.Path.{subst}
use mqtt_client.Memory.{Elements, Ptr, null}
use mqtt_client.Memory.Points.{Points}
use mqtt_client.Memory.Segments.{
  Cells, Disjoint, Seg, after, among, among-append, before, cons, content_at, erase, last_of,
  last_of-append, nil, ◌∈◌, ◌∉◌,
}
use mqtt_client.Prelude.{
  Bool-cases, [], ap, arith, false, inl, inr, length, refl, suc, sym, true, ◌++◌, ◌==◌, ◌||◌, ◌∙◌,
  ◌∷◌, ◌≡◌,
}

pub erase-before-after : (a : Ptr) (xs : Cells) → a ∈ xs → erase a xs ≡ before a xs ++ after a xs
unfolding erase before after
erase-before-after a [] i = cc
erase-before-after a ((p, c) ∷ xs) i = ground (arith, erase-before-after a xs)

pub among-before : (x a : Ptr) (xs : Cells) → x ∈ before a xs → x ∈ xs
unfolding before
among-before x a [] i = i
among-before x a ((p, c) ∷ xs) i = ground (arith, among-before x a xs)

pub among-after : (x a : Ptr) (xs : Cells) → x ∈ after a xs → x ∈ xs
unfolding after
among-after x a [] i = i
among-after x a ((p, c) ∷ xs) i = ground (arith, among-after x a xs)

pub erase-not-mem : (a : Ptr) (xs : Cells) → a ∉ xs → erase a xs ≡ xs
unfolding erase
erase-not-mem a [] out = refl
erase-not-mem a ((p, c) ∷ xs) out = ground (arith, erase-not-mem a xs)

pub among-erase : (x a : Ptr) (xs : Cells) → x ∈ xs → (x == a) ≡ false → x ∈ erase a xs
unfolding erase
among-erase x a [] i n = i
among-erase x a ((p, c) ∷ xs) i n = ground (arith, among-erase x a xs)

pub length-erase : (a : Ptr) (xs : Cells) → a ∈ xs → length xs ≡ suc (length (erase a xs))
unfolding erase
length-erase a [] i = cc
length-erase a ((p, c) ∷ xs) i = ground (arith, length-erase a xs)

-- The segment at the element `a`, whose successor is `q`.
pub record Split (es : Elements) (stop b p a : Ptr) (xs : Cells) (q : Ptr) : Type 0 where
  pub front : Seg es a b p (before a xs)
  pub at : Points es a (last_of b (before a xs)) q (content_at a xs)
  pub back : Seg es stop a q (after a xs)
  pub apart : Disjoint (before a xs) (after a xs)
  pub front_out : a ∉ before a xs
  pub back_out : a ∉ after a xs

module _ {es : Elements} {stop b p q c : Ptr} {xs : Cells} (e : Points es p b q c) (out : p ∉ xs)
    (s : Seg es stop p q xs) where
  Split-here : Split es stop b p p ((p, c) ∷ xs) q
  unfolding before after content_at
  Split-here =
      let self : (p == p) ≡ true = ground arith in
      record {
        front = rw self nil;
        at = rw self e;
        back = rw self s;
        apart = rw self (λ x j. cc);
        front_out = rw self refl;
        back_out = rw self out;
      }

  apart_cons :
      (a : Ptr) → Disjoint (before a xs) (after a xs) → Disjoint ((p, c) ∷ before a xs) (after a xs)
  apart_cons a apart x j = elim (Bool-cases (among x (after a xs))) [
    | inl i ↦
        let k = among-after x a xs i in
        elim (Bool-cases (among x (before a xs))) [
          | inl l ↦ absurd (ground (arith, apart x l))
          | inr l ↦ absurd (ground arith)
        ]
    | inr i ↦ i
  ]

  Split-later :
      {a r : Ptr}
      → (a == p) ≡ false
      → Split es stop p q a xs r
      → Split es stop b p a ((p, c) ∷ xs) r
  unfolding before after content_at
  Split-later {a} {r} later t = record {
    front = rw later (cons e (ground (arith, among-before p a xs)) t.front);
    at = rw later t.at;
    back = rw later t.back;
    apart = rw later (apart_cons a t.apart);
    front_out = rw (later, later) t.front_out;
    back_out = rw later t.back_out;
  }

module _ {es : Elements} {stop : Ptr} (a : Ptr) where
  pub split :
      {b p : Ptr} {xs : Cells} → Seg es stop b p xs → a ∈ xs → (q : Ptr) × Split es stop b p a xs q
  split nil i = cc
  split (cons {b} {p} {q} {c} {xs} e out s) i = elim (Bool-cases (a == p)) [
    | inl here ↦
        let same : p ≡ a = ground arith in
        (q, subst (λ (x : Ptr). Split es stop b p x ((p, c) ∷ xs) q) same (Split-here e out s))
    | inr later ↦ let (r, t) = split s (ground arith) in (r, Split-later e out s later t)
  ]

pub last_of-after : (b a : Ptr) (xs : Cells) → a ∈ xs → last_of b xs ≡ last_of a (after a xs)
unfolding after
last_of-after b a [] i = cc
last_of-after b a ((p, c) ∷ xs) i = elim (Bool-cases (a == p)) [
  | inl here ↦ let same : p ≡ a = ground arith in rw here (ap (λ (x : Ptr). last_of x xs) same)
  | inr later ↦ rw later (last_of-after p a xs (ground arith))
]

pub last_of-erase :
    (b a : Ptr) (xs : Cells)
    → a ∈ xs
    → last_of b (erase a xs) ≡ last_of (last_of b (before a xs)) (after a xs)
last_of-erase b a xs i =
    rw (erase-before-after a xs i) (last_of-append b (before a xs) (after a xs))

pub Disjoint-swap : (xs ys : Cells) → Disjoint xs ys → Disjoint ys xs
Disjoint-swap xs ys apart a i = elim (Bool-cases (among a xs)) [
  | inl j ↦ cc (i, apart a j)
  | inr out ↦ out
]

-- An address outside the erased list is outside both parts.
pub not-mem-parts :
    (x a : Ptr) (xs : Cells) → a ∈ xs → x ∉ erase a xs → (x ∉ before a xs) × (x ∉ after a xs)
not-mem-parts x a xs i out =
    let e : (among x (before a xs) || among x (after a xs)) ≡ false =
      sym (among-append x (before a xs) (after a xs))
      ∙ ap (among x) (sym (erase-before-after a xs i))
      ∙ out in
    (ground arith, ground arith)

-- Nothing but the element at `a` is erased, and it is.
pub not-mem-erase : (x a : Ptr) (xs : Cells) → x ∉ xs → x ∉ erase a xs
unfolding erase
not-mem-erase x a [] out = out
not-mem-erase x a ((p, c) ∷ xs) out = ground (arith, not-mem-erase x a xs)

pub self-not-mem-erase :
    {es : Elements} {stop b p a q : Ptr} {xs : Cells}
    → Split es stop b p a xs q
    → a ∈ xs
    → a ∉ erase a xs
self-not-mem-erase {a} {xs} s i =
    rw (erase-before-after a xs i, among-append a (before a xs) (after a xs), s.front_out)
      s.back_out

pub after-not-mem : (a : Ptr) (xs : Cells) → a ∉ xs → after a xs ≡ []
unfolding after
after-not-mem a [] out = refl
after-not-mem a ((p, c) ∷ xs) out = ground (arith, after-not-mem a xs)

pub content_at-not-mem : (a : Ptr) (xs : Cells) → a ∉ xs → content_at a xs ≡ null
unfolding content_at
content_at-not-mem a [] out = refl
content_at-not-mem a ((p, c) ∷ xs) out = ground (arith, content_at-not-mem a xs)

pub not-mem-before : (x a : Ptr) (xs : Cells) → x ∉ xs → x ∉ before a xs
not-mem-before x a xs out = ground (arith, among-before x a xs)

pub not-mem-after : (x a : Ptr) (xs : Cells) → x ∉ xs → x ∉ after a xs
not-mem-after x a xs out = ground (arith, among-after x a xs)
