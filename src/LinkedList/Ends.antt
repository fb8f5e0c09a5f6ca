-- ===== src/LinkedList/Ends.antt =====
-- `ListDetachHead` and `ListPopTail`: the first or the last element is taken out of the list.
use mathlib.Core.List.{append-nil}
use mathlib.Core.Path.{subst}
use mqtt_client.LinkedList.{LinkedList, list_detach_head, list_pop_tail, positive}
use mqtt_client.LinkedList.Chains.{
  IsCursor, IsList, SameOutside, head-of-Seg, head-of-Seg-cons, head_of,
}
use mqtt_client.LinkedList.Unlink.{Removed, next_cursor, released}
use mqtt_client.Memory.{
  Blocks, Elements, Ptr, element, heap, null, pure, returned, set_next, set_prev, write,
}
use mqtt_client.Memory.Points.{
  Points-same, Points-write, free_element_lem, load_lem, not_null, set_next_lem, set_prev_lem,
}
use mqtt_client.Memory.Returns.{Returns, returns}
use mqtt_client.Memory.Segments.{
  Cells, Seg, after, among, before, cons, content_at, erase, last_of, ne_of_mem, ne_of_not-mem, nil,
  redirect, spared-write, write-not-mem, write-other, write_self, ◌∈◌, ◌∉◌,
}
use mqtt_client.Memory.Splitting.{
  among-erase, erase-before-after, length-erase, not-mem-before, split,
}
use mqtt_client.Prelude.{
  Bool-cases, [], ap, arith, false, if◌then◌else◌, inl, inr, length, none, refl, some, suc, sym,
  true, ℕ, ◌++◌, ◌<◌, ◌==◌, ◌^◌, ◌∙◌, ◌∷◌, ◌≡◌,
}

positive_lem : (n k : ℕ) → n ≡ suc k → suc k < 2 ^ 31 → positive n ≡ true
positive_lem n k e h = ground arith

positive-zero : (n : ℕ) → n ≡ 0 → positive n ≡ false
positive-zero n e = ground arith

last_of-mem : (b : Ptr) (y : Ptr × Ptr) (ys : Cells) → last_of b (y ∷ ys) ∈ y ∷ ys
last_of-mem b (p, c) [] = ground arith
last_of-mem b (p, c) (y ∷ ys) = ground (arith, last_of-mem p y ys)

head_of-IsCursor : (zs : Cells) → IsCursor (head_of zs) zs
head_of-IsCursor [] = refl
head_of-IsCursor ((p, c) ∷ zs) = ground arith

last_of-IsCursor : (ys : Cells) → IsCursor (last_of null ys) ys
last_of-IsCursor [] = refl
last_of-IsCursor (y ∷ ys) = ground (arith, last_of-mem null y ys)

-- The structure's `last` pointer when the first element goes.
last_of-rest :
    (p : Ptr) (zs : Cells)
    → p ∉ zs
    → (if last_of p zs == p then null else last_of p zs) ≡ last_of null zs
last_of-rest p [] out = ground arith
last_of-rest p (z ∷ zs) out = rw (ne_of_mem (z ∷ zs) _ p (last_of-mem p z zs) out) refl

-- Its `first` pointer when the last element goes.
head_of-front :
    {es : Elements} {a p : Ptr} (ys : Cells)
    → Seg es a null p ys
    → a ∉ ys
    → (if p == a then null else p) ≡ head_of ys
head_of-front [] nil out = ground arith
head_of-front ((p, c) ∷ ys) (cons e o s) out = ground arith

after-last :
    {es : Elements} {b p : Ptr} (y : Ptr × Ptr) (ys : Cells)
    → Seg es null b p (y ∷ ys)
    → after (last_of b (y ∷ ys)) (y ∷ ys) ≡ []
unfolding after
after-last (p, c) [] s = ground arith
after-last (p, c) (y ∷ ys) (cons e out s) =
    rw (ne_of_mem (y ∷ ys) _ p (last_of-mem p y ys) out) (after-last y ys s)

IsCursor-before :
    (current a : Ptr) (xs : Cells)
    → erase a xs ≡ before a xs
    → IsCursor current xs
    → IsCursor (if current == a then last_of null (before a xs) else current) (before a xs)
IsCursor-before current a xs e at = elim (Bool-cases (current == a)) [
  | inl here ↦ rw here (last_of-IsCursor (before a xs))
  | inr other ↦
      let kept : among current xs ≡ true → current ∈ before a xs =
        λ i. ap (among current) (sym e) ∙ among-erase current a xs i other in
      rw other (ground (arith, kept))
]

module _ {es : Elements} (bs : Blocks) where
  clear_prev_lem :
      {b p : Ptr} (zs : Cells)
      → Seg es null b p zs
      → (gs : Elements) × ((if p == null then pure tt else set_prev p null) (heap es bs)
          ≡ returned tt (heap gs bs))
        × Seg gs null null p zs
        × SameOutside zs es gs
  unfolding write
  clear_prev_lem [] nil = (es, refl, nil, λ a o. refl)
  clear_prev_lem ((p, c) ∷ zs) (cons {q} e out s) = (
    write es p (some (element null q c)),
    rw (not_null e, set_prev_lem e bs null) refl,
    cons (Points-write e null q c) out (spared-write p _ s out),
    λ a o. ground arith,
  )

  clear_next_lem :
      {stop p : Ptr} (ys : Cells)
      → Seg es stop null p ys
      → (gs : Elements) × ((if last_of null ys == null
              then pure tt
              else set_next (last_of null ys) null)
            (heap es bs)
          ≡ returned tt (heap gs bs))
        × Seg gs null null (head_of ys) ys
        × SameOutside ys es gs
  unfolding write
  clear_next_lem [] nil = (es, refl, nil, λ a o. refl)
  clear_next_lem (y ∷ ys) s =
      let (b', c, e, i, t) = redirect y ys null s in
      let gs = write es (last_of null (y ∷ ys)) (some (element b' null c)) in
      (
        gs,
        rw (not_null e, set_next_lem e bs null) refl,
        subst (λ (z : Ptr). Seg gs null null z (y ∷ ys)) (head-of-Seg-cons t) t,
        λ a o. write-not-mem es _ (y ∷ ys) a _ o i,
      )

  IsCursor-behind :
      (current c : Ptr) {p q : Ptr} (zs : Cells)
      → Seg es null p q zs
      → IsCursor current ((p, c) ∷ zs)
      → IsCursor (if current == p then q else current) zs
  IsCursor-behind current c {p} zs s at = elim (Bool-cases (current == p)) [
    | inl here ↦ rw (here, head-of-Seg zs s) (head_of-IsCursor zs)
    | inr other ↦ rw other (rw other at at)
  ]

  detach_head-run :
      {p : Ptr} (last current count size : ℕ) (xs : Cells)
      → Seg es null null p xs
      → last ≡ last_of null xs
      → count ≡ length xs
      → length xs < 2 ^ 31
      → IsCursor current xs
      → Returns
          (λ (content, l') g.
            (content ≡ content_at p xs)
            × Removed es bs size xs p (next_cursor current p xs) false l' g)
          (list_detach_head
            (record { first = p; last = last; current = current; count = count; size = size })
            (heap es bs))
  unfolding list_detach_head content_at erase after released
  detach_head-run last current count size [] nil l n small at = rw (positive-zero count n) (
      returns (
        refl,
        record {
          list = record { chain = nil; last = l; count = n; bounded = omega arith; current = at };
          gone = λ j. cc;
          same = λ a o. refl;
          blocks = refl;
          same_size = refl;
          current = ground arith;
        },
      ))
  detach_head-run last current count size ((p, c) ∷ zs) (cons {q} e out s) l n small at =
      let (gs, run, t, same) = clear_prev_lem zs s in
      let e' = Points-same {gs = gs} e (same p out) in
      let self : (p == p) ≡ true = ground arith in
      rw (positive_lem count (length zs) n small, load_lem e bs, run, free_element_lem e' bs)
        (returns (
          rw self refl,
          record {
            list = rw self (record {
              chain = spared-write p none t out;
              last = rw l (last_of-rest p zs out);
              count = ground arith;
              bounded = ground arith;
              current = IsCursor-behind current c zs s at;
            });
            gone = λ j. write_self gs p none;
            same = λ a o. write-other gs p none a (ground arith) ∙ same a (ground arith);
            blocks = refl;
            same_size = refl;
            current = rw (self, head-of-Seg zs s) refl;
          },
        ))

  pop_tail-cons :
      {p : Ptr} (last current count size : ℕ) (y : Ptr × Ptr) (rest : Cells)
      → Seg es null null p (y ∷ rest)
      → last ≡ last_of null (y ∷ rest)
      → count ≡ length (y ∷ rest)
      → length (y ∷ rest) < 2 ^ 31
      → IsCursor current (y ∷ rest)
      → let xs = y ∷ rest in
        Returns
          (λ (content, l') g.
            (content ≡ content_at last xs)
            × Removed es bs size xs last
                (if current == last then last_of null (before last xs) else current)
                false
                l'
                g)
          (list_pop_tail
            (record { first = p; last = last; current = current; count = count; size = size })
            (heap es bs))
  unfolding list_pop_tail released
  pop_tail-cons {p} last current count size y rest chain l n small at =
      let xs : Cells = y ∷ rest in
      let i : last ∈ xs = subst (λ (a : Ptr). a ∈ xs) (sym l) (last_of-mem null y rest) in
      let none_behind : after last xs ≡ [] =
        subst (λ (a : Ptr). after a xs ≡ []) (sym l) (after-last y rest chain) in
      let (q, s) = split last chain i in
      let front = before last xs in
      let erased : erase last xs ≡ front =
        erase-before-after last xs i
        ∙ ap (λ (zs : Cells). front ++ zs) none_behind
        ∙ append-nil front in
      let (gs, run, t, same) = clear_next_lem front s.front in
      let e' = Points-same {gs = gs} s.at (same last s.front_out) in
      rw (positive_lem count (length rest) n small, load_lem s.at bs, run, free_element_lem e' bs)
        (returns (
          refl,
          record {
            list = rw erased (record {
              chain =
                  rw (head_of-front front s.front s.front_out)
                    (spared-write last none t s.front_out);
              last = refl;
              count = ground (arith, length-erase last xs i, ap (λ (zs : Cells). length zs) erased);
              bounded =
                  ground (arith, length-erase last xs i, ap (λ (zs : Cells). length zs) erased);
              current = IsCursor-before current last xs erased at;
            });
            gone = λ j. write_self gs last none;
            same = λ a o.
                write-other gs last none a (ne_of_not-mem xs a last o i)
                ∙ same a (not-mem-before a last xs o);
            blocks = refl;
            same_size = refl;
            current = refl;
          },
        ))

  pop_tail-run :
      {p : Ptr} (last current count size : ℕ) (xs : Cells)
      → Seg es null null p xs
      → last ≡ last_of null xs
      → count ≡ length xs
      → length xs < 2 ^ 31
      → IsCursor current xs
      → Returns
          (λ (content, l') g.
            (content ≡ content_at last xs)
            × Removed es bs size xs last
                (if current == last then last_of null (before last xs) else current)
                false
                l'
                g)
          (list_pop_tail
            (record { first = p; last = last; current = current; count = count; size = size })
            (heap es bs))
  unfolding list_pop_tail content_at erase before released
  pop_tail-run last current count size [] nil l n small at = rw (positive-zero count n) (
      returns (
        refl,
        record {
          list = record { chain = nil; last = l; count = n; bounded = omega arith; current = at };
          gone = λ j. cc;
          same = λ a o. refl;
          blocks = refl;
          same_size = refl;
          current = ground arith;
        },
      ))
  pop_tail-run last current count size (y ∷ rest) chain l n small at =
      pop_tail-cons last current count size y rest chain l n small at

module _ {es : Elements} (bs : Blocks) {l : LinkedList} {xs : Cells} (is : IsList es l xs) where
  -- `ListDetachHead` takes out the first element of a well-linked list, whose content it returns,
  -- and frees the element only; of an empty list it returns `NULL`.
  pub list_detach_head-Removed :
      Returns
        (λ (content, l') g.
          (content ≡ content_at l.first xs)
          × Removed es bs l.size xs l.first (next_cursor l.current l.first xs) false l' g)
        (list_detach_head l (heap es bs))
  list_detach_head-Removed =
      detach_head-run bs l.last l.current l.count l.size xs is.chain is.last is.count is.bounded
        is.current

  -- `ListPopTail` takes out the last element of a well-linked list, whose content it returns, and
  -- frees the element only; a cursor that was there is at the element in front then. Of an empty
  -- list it returns `NULL`.
  pub list_pop_tail-Removed :
      Returns
        (λ (content, l') g.
          (content ≡ content_at l.last xs)
          × Removed es bs l.size xs l.last
              (if l.current == l.last then last_of null (before l.last xs) else l.current)
              false
              l'
              g)
        (list_pop_tail l (heap es bs))
  list_pop_tail-Removed =
      pop_tail-run bs l.last l.current l.count l.size xs is.chain is.last is.count is.bounded
        is.current
