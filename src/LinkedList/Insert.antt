-- ===== src/LinkedList/Insert.antt =====
-- `ListAppend` and `ListInsert`: a new element behind the last one, or in front of a given one.
use mqtt_client.Memory.Returns
use mathlib.Core.Path.{subst}
use mqtt_client.LinkedList.{
  LinkedList, add_size, blank, list_append, list_append_no_malloc, list_insert,
}
use mqtt_client.LinkedList.Chains.{IsCursor, IsList, append_link_lem, link_next_lem}
use mqtt_client.Memory.{Blocks, Elements, Heap, Ptr, element, heap, null, write}
use mqtt_client.Memory.Points.{
  Points, Points-same, Points-write, load_lem, not_null, set_content_lem, set_next_lem,
  set_prev_lem,
}
use mqtt_client.Memory.Returns.{Returns, returns}
use mqtt_client.Memory.Segments.{
  Cells, after, append, before, cons, content_at, last_of, last_of-append, ne_of_mem, ne_of_not-mem,
  nil, null-not-mem, spared, unused-not-mem, write-other, write3, ◌∈◌, ◌∉◌,
}
use mqtt_client.Memory.Splitting.{
  Disjoint-swap, among-after, among-before, last_of-after, not-mem-after, not-mem-before, split,
}
use mqtt_client.Prelude.{
  Bool-cases, [], arith, false, if◌then◌else◌, inl, inr, length, none, refl, some, true, ℕ, ◌++◌,
  ◌+◌, ◌<◌, ◌==◌, ◌^◌, ◌∙◌, ◌∷◌, ◌≡◌, ◌≢◌,
}

-- The cells with a new one in front of the one at `index`, or at the end.
unfoldable pub insert_before : (index : Ptr) → (Ptr × Ptr) → Cells → Cells
insert_before index x [] = x ∷ []
insert_before index x ((p, c) ∷ xs) =
    if index == p then x ∷ (p, c) ∷ xs else (p, c) ∷ insert_before index x xs

-- The outcome of adding the element `fresh` with content `c`, which counts for `size`.
pub record Added (es : Elements) (bs : Blocks) (l : LinkedList) (size : ℕ) (xs ys : Cells)
    (fresh : Ptr) (r : Ptr × LinkedList) (g : Heap) : Type 0 where
  pub result : r.0 ≡ fresh
  pub list : IsList g.elements r.1 ys
  pub same : (a : Ptr) → a ∉ xs → (a == fresh) ≡ false → g.elements a ≡ es a
  pub blocks : g.blocks ≡ bs
  pub new_size : r.1.size ≡ add_size l.size size
  pub cursor : r.1.current ≡ l.current

insert_before-mem :
    (index : Ptr) (x : Ptr × Ptr) (xs : Cells)
    → index ∈ xs
    → insert_before index x xs
      ≡ before index xs ++ x ∷ (index, content_at index xs) ∷ after index xs
unfolding insert_before before content_at after
insert_before-mem index x [] i = cc
insert_before-mem index x ((p, c) ∷ xs) i = ground (arith, insert_before-mem index x xs)

pub length-insert_before :
    (index : Ptr) (x : Ptr × Ptr) (xs : Cells) → length (insert_before index x xs) ≡ length xs + 1
unfolding insert_before
length-insert_before index x [] = omega arith
length-insert_before index x ((p, c) ∷ xs) = ground (arith, length-insert_before index x xs)

pub among-insert_before :
    (a index : Ptr) (x : Ptr × Ptr) (xs : Cells) → a ∈ xs → a ∈ insert_before index x xs
unfolding insert_before
among-insert_before a index x [] i = cc
among-insert_before a index x ((p, c) ∷ xs) i = ground (arith, among-insert_before a index x xs)

insert_before_end :
    (index : Ptr) (x : Ptr × Ptr) (xs : Cells)
    → index ∉ xs
    → insert_before index x xs ≡ xs ++ x ∷ []
unfolding insert_before
insert_before_end index x [] out = refl
insert_before_end index x ((p, c) ∷ xs) out = ground (arith, insert_before_end index x xs)

IsCursor-insert_before :
    {es : Elements} {l : LinkedList} {xs : Cells} (index : Ptr) (x : Ptr × Ptr)
    → IsList es l xs
    → IsCursor l.current (insert_before index x xs)
IsCursor-insert_before {l} {xs} index x is =
    ground (arith, is.current, among-insert_before l.current index x xs)

eq_null : (a : Ptr) → (a == null) ≡ true → a ≡ null
eq_null a h = ground arith

blank-Points :
    (es : Elements) {p : Ptr} → p ≢ null → Points (write es p (some blank)) p null null null
unfolding write
blank-Points es given = record { ne_null = given; holds = ground arith }

module _ {es : Elements} (bs : Blocks) {l : LinkedList} {xs : Cells} (is : IsList es l xs)
    (fresh : Ptr) (unused : es fresh ≡ none) (fits : length xs + 1 < 2 ^ 31) where
  pub list_append_no_malloc-Added :
      (content size : ℕ) (gs : Elements) (b q c : Ptr)
      → Points gs fresh b q c
      → ((a : Ptr) → (a == fresh) ≡ false → gs a ≡ es a)
      → Returns
          (λ l' g.
            Added es bs l size xs (insert_before null (fresh, content) xs) fresh (fresh, l') g)
          (list_append_no_malloc l content fresh size (heap gs bs))
  unfolding list_append_no_malloc
  list_append_no_malloc-Added content size gs b q c e same =
      let out = unused-not-mem fresh is.chain unused in
      let x : Ptr × Ptr = (fresh, content) in
      let end = insert_before_end null x xs (null-not-mem is.chain) in
      let e1 = Points-write e b q content in
      let e2 = Points-write e1 b null content in
      let e3 = Points-write e2 l.last null content in
      let g1 = write gs fresh (some (element b q content)) in
      let g2 = write g1 fresh (some (element b null content)) in
      let g3 = write g2 fresh (some (element l.last null content)) in
      let same3 : (a : Ptr) → (a == fresh) ≡ false → g3 a ≡ es a =
        λ a n. write3 gs fresh _ _ _ a n ∙ same a n in
      let chain = spared is.chain (λ a i. same3 a (ne_of_mem xs a fresh i out)) in
      let (first, hs, run, t, same') = append_link_lem bs xs l.last fresh chain is.last in
      let e4 = Points-same {gs = hs} e3 (same' fresh out) in
      rw (set_content_lem e bs content, set_next_lem e1 bs null, set_prev_lem e2 bs l.last, run)
        (returns (record {
          result = refl;
          list = record {
            chain = rw end (
                append xs t
                  (cons (subst (λ (y : Ptr). Points hs fresh y null content) is.last e4) refl nil)
                  (λ a i. ground (arith, ne_of_mem xs a fresh i out)));
            last = rw (end, last_of-append null xs (x ∷ [])) refl;
            count = ground (arith, length-insert_before null x xs, is.count);
            bounded = ground (arith, length-insert_before null x xs);
            current = IsCursor-insert_before null x is;
          };
          same = λ a o n. same' a o ∙ same3 a n;
          blocks = refl;
          new_size = refl;
          cursor = refl;
        }))

  module _ (given : fresh ≢ null) (content size : ℕ) where
    -- `ListAppend`, where `malloc` returns an element, puts the content at the end.
    pub list_append-Added :
        Returns
          (Added es bs l size xs (xs ++ (fresh, content) ∷ []) fresh)
          (list_append fresh l content size (heap es bs))
    unfolding list_append
    list_append-Added =
        let given' : (fresh == null) ≡ false = ground arith in
        rw (given', ← insert_before_end null (fresh, content) xs (null-not-mem is.chain))
          (Returns.bind
            (list_append_no_malloc-Added content size (write es fresh (some blank)) null null null
              (blank-Points es given) (write-other es fresh (some blank)))
            λ l' g r. returns r)

    insert_at :
        (index : Ptr)
        → index ∈ xs
        → Returns
            (Added es bs l size xs (insert_before index (fresh, content) xs) fresh)
            (list_insert fresh l content size index (heap es bs))
    unfolding list_insert
    insert_at index i =
        let given' : (fresh == null) ≡ false = ground arith in
        let x : Ptr × Ptr = (fresh, content) in
        let out = unused-not-mem fresh is.chain unused in
        let n = ne_of_mem xs index fresh i out in
        let (q, s) = split index is.chain i in
        let g0 = write es fresh (some blank) in
        let e0 = blank-Points es given in
        let e1 = Points-write e0 null null content in
        let e2 = Points-write e1 null index content in
        let b = last_of null (before index xs) in
        let c = content_at index xs in
        let g1 = write g0 fresh (some (element null null content)) in
        let g2 = write g1 fresh (some (element null index content)) in
        let e3 = Points-write e2 b index content in
        let g3 = write g2 fresh (some (element b index content)) in
        let same3 : (a : Ptr) → (a == fresh) ≡ false → g3 a ≡ es a =
          λ a m. write3 g0 fresh _ _ _ a m ∙ write-other es fresh _ a m in
        let at2 = Points-same {gs = g2} s.at (write3 es fresh _ _ _ index n) in
        let at3 = Points-same {gs = g3} s.at (same3 index n) in
        let g4 = write g3 index (some (element fresh q c)) in
        let m : (fresh == index) ≡ false = ground arith in
        let e4 = Points-same {gs = g4} e3 (write-other g3 index _ fresh m) in
        let ys = before index xs in
        let zs = after index xs in
        let front = spared {gs = g4} s.front (λ a j.
          write-other g3 index _ a (ne_of_mem ys a index j s.front_out)
          ∙ same3 a (ne_of_mem xs a fresh (among-before a index xs j) out)) in
        let (first, hs, run, t, same') = link_next_lem bs ys fresh front in
        let out_ys = not-mem-before fresh index xs out in
        let out_zs = not-mem-after fresh index xs out in
        let back = spared {gs = hs} s.back (λ a j.
          same' a (Disjoint-swap ys zs s.apart a j)
          ∙ write-other g3 index _ a (ne_of_mem zs a index j s.back_out)
          ∙ same3 a (ne_of_mem xs a fresh (among-after a index xs j) out)) in
        let ef = Points-same {gs = hs} e4 (same' fresh out_ys) in
        let ei = Points-same {gs = hs} (Points-write at3 fresh q c) (same' index s.front_out) in
        let parts = insert_before-mem index x xs i in
        rw
          (
            given',
            not_null s.at,
            set_content_lem e0 bs content,
            set_next_lem e1 bs index,
            load_lem at2 bs,
            set_prev_lem e2 bs b,
            set_prev_lem at3 bs fresh,
            load_lem e4 bs,
            run,
          )
          (returns (record {
            result = refl;
            list = record {
              chain = rw parts (
                  append ys t (cons ef (rw (m, out_zs) refl) (cons ei s.back_out back)) (λ a j.
                    rw
                      (
                        ne_of_mem xs a fresh (among-before a index xs j) out,
                        ne_of_mem ys a index j s.front_out,
                      )
                      (s.apart a j)));
              last =
                  rw (parts, last_of-append null ys (x ∷ (index, c) ∷ zs))
                    (is.last ∙ last_of-after null index xs i);
              count = ground (arith, length-insert_before index x xs, is.count);
              bounded = ground (arith, length-insert_before index x xs);
              current = IsCursor-insert_before index x is;
            };
            same = λ a o k.
                same' a (not-mem-before a index xs o)
                ∙ write-other g3 index _ a (ne_of_not-mem xs a index o i)
                ∙ same3 a k;
            blocks = refl;
            new_size = refl;
            cursor = refl;
          }))

    -- `ListInsert` into a well-linked list, where `malloc` returns an element that was not
    -- allocated and the count stays an `int`, puts the content in front of the element at `index`,
    -- which is one of the list, or at the end for `NULL`.
    pub list_insert-Added :
        (index : Ptr)
        → IsCursor index xs
        → Returns
            (Added es bs l size xs (insert_before index (fresh, content) xs) fresh)
            (list_insert fresh l content size index (heap es bs))
    unfolding list_insert
    list_insert-Added index ok = elim (Bool-cases (index == null)) [
      | inl end ↦
          let given' : (fresh == null) ≡ false = ground arith in
          rw (given', end, eq_null index end)
            (Returns.bind
              (list_append_no_malloc-Added content size (write es fresh (some blank)) null null null
                (blank-Points es given) (write-other es fresh (some blank)))
              λ l' g r. returns r)
      | inr inside ↦ insert_at index (rw inside at ok)
    ]
