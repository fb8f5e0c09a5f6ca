-- ===== src/LinkedList/Chains.antt =====
-- Well-formed lists, and how the links around a place in one are led elsewhere.
use mqtt_client.LinkedList.{LinkedList, link_next, link_prev}
use mqtt_client.Memory.{
  Blocks, Elements, Ptr, element, heap, null, pure, returned, set_next, write, ◌>>◌,
}
use mqtt_client.Memory.Points.{Points-write, not_null, set_next_lem, set_prev_lem}
use mqtt_client.Memory.Segments.{
  Cells, Seg, among, cons, last_of, nil, redirect, spared-write, write-not-mem, ◌∉◌,
}
use mqtt_client.Prelude.{
  [], arith, false, if◌then◌else◌, length, refl, some, true, ◌<◌, ◌==◌, ◌^◌, ◌||◌, ◌∷◌, ◌≡◌,
}

-- `gs` differs from `es` at most at the addresses of `xs`.
abbrev pub SameOutside : Cells → Elements → Elements → Type 0
SameOutside xs es gs = (a : Ptr) → a ∉ xs → gs a ≡ es a

abbrev pub head_of : Cells → Ptr
head_of [] = null
head_of ((p, _) ∷ xs) = p

-- The address of a cell, or `NULL`.
abbrev pub IsCursor : Ptr → Cells → Type 0
IsCursor a xs = ((a == null) || among a xs) ≡ true

-- The structure `l` stands for the cells `xs`, and its cursor is at one of them or nowhere.
pub record IsList (es : Elements) (l : LinkedList) (xs : Cells) : Type 0 where
  pub chain : Seg es null null l.first xs
  pub last : l.last ≡ last_of null xs
  pub count : l.count ≡ length xs
  pub bounded : length xs < 2 ^ 31
  pub current : IsCursor l.current xs

pub head-of-Seg : {es : Elements} {b p : Ptr} (xs : Cells) → Seg es null b p xs → p ≡ head_of xs
head-of-Seg [] nil = refl
head-of-Seg ((p, c) ∷ xs) (cons e out s) = refl

pub head-of-Seg-cons :
    {es : Elements} {stop b p : Ptr} {x : Ptr × Ptr} {xs : Cells}
    → Seg es stop b p (x ∷ xs)
    → p ≡ head_of (x ∷ xs)
head-of-Seg-cons (cons e out s) = refl

Seg-not_null :
    {es : Elements} {stop b p : Ptr} {x : Ptr × Ptr} {xs : Cells}
    → Seg es stop b p (x ∷ xs)
    → (p == null) ≡ false
Seg-not_null (cons e out s) = not_null e

module _ {es : Elements} (bs : Blocks) where
  -- The element in front of a place, or the structure, is led on to `q`.
  pub link_next_lem :
      {stop p : Ptr} (ys : Cells) (q : Ptr)
      → Seg es stop null p ys
      → (first : Ptr) × (gs : Elements) × (link_next (last_of null ys) q p (heap es bs)
          ≡ returned first (heap gs bs))
        × Seg gs q null first ys
        × SameOutside ys es gs
  unfolding write
  link_next_lem [] q nil = (q, es, refl, nil, λ a o. refl)
  link_next_lem {p} (y ∷ ys) q s =
      let (b', c, e, i, t) = redirect y ys q s in
      (
        p,
        write es _ (some (element b' q c)),
        rw (not_null e, set_next_lem e bs q) refl,
        t,
        λ a o. write-not-mem es _ (y ∷ ys) a _ o i,
      )

  -- The element behind a place, or the structure, is led back to `b`.
  pub link_prev_lem :
      {b p : Ptr} (zs : Cells) (b' : Ptr)
      → Seg es null b p zs
      → (last : Ptr) → last ≡ last_of b zs
      → (gs : Elements) × (link_prev p b' last (heap es bs) ≡ returned (last_of b' zs) (heap gs bs))
        × Seg gs null b' p zs
        × SameOutside zs es gs
  unfolding write
  link_prev_lem [] b' nil last l = (es, refl, nil, λ a o. refl)
  link_prev_lem ((p, c) ∷ zs) b' (cons {q} e out s) last l = (
    write es p (some (element b' q c)),
    rw (not_null e, set_prev_lem e bs b') (rw l refl),
    cons (Points-write e b' q c) out (spared-write p _ s out),
    λ a o. ground arith,
  )

  -- The last element, or the structure, is led on to an element that is added behind it.
  pub append_link_lem :
      {p : Ptr} (xs : Cells) (last fresh : Ptr)
      → Seg es null null p xs
      → last ≡ last_of null xs
      → (first : Ptr) × (gs : Elements) × ((if p == null
              then pure fresh
              else (do set_next last fresh; pure p))
            (heap es bs)
          ≡ returned first (heap gs bs))
        × Seg gs fresh null first xs
        × SameOutside xs es gs
  unfolding write
  append_link_lem [] last fresh nil l = (fresh, es, refl, nil, λ a o. refl)
  append_link_lem {p} (y ∷ ys) last fresh s l =
      let (b', c, e, i, t) = redirect y ys fresh s in
      (
        p,
        write es _ (some (element b' fresh c)),
        rw (Seg-not_null s, l, set_next_lem e bs fresh) refl,
        t,
        λ a o. write-not-mem es _ (y ∷ ys) a _ o i,
      )
