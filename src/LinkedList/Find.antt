-- ===== src/LinkedList/Find.antt =====
-- The search for an element, and the removal of the one that it finds.
use mqtt_client.Memory.Returns
use mathlib.Core.Path.{subst}
use mqtt_client.LinkedList.{
  LinkedList, content_matches, find_loop, list_find_item, list_next_element, list_unlink, scan,
}
use mqtt_client.LinkedList.Chains.{IsCursor, IsList}
use mqtt_client.LinkedList.Unlink.{CanFree, Removed, next_cursor, released, unlink_current-Removed}
use mqtt_client.Memory.{Blocks, Elements, Ptr, heap, null, returned}
use mqtt_client.Memory.Points.{Points, load_lem, not_null}
use mqtt_client.Memory.Returns.{Returns, returns}
use mqtt_client.Memory.Segments.{Cells, Seg, among, cons, content_at, nil, null-not-mem, ◌∈◌, ◌∉◌}
use mqtt_client.Memory.Splitting.{after-not-mem, content_at-not-mem, erase-not-mem, split}
use mqtt_client.Prelude.{
  Bool, Bool-cases, Option, [], ap, arith, false, if◌then◌else◌, inl, inr, length, not, refl, suc,
  sym, true, zero, ℕ, ◌&&◌, ◌<◌, ◌==◌, ◌∙◌, ◌∷◌, ◌≡◌,
}

-- The first cell whose content passes the test, and the cell that a search chooses: the one at the
-- cursor where it passes, or else the first.
unfoldable pub first_match : (Ptr → Bool) → Cells → Ptr
first_match test [] = null
first_match test ((p, c) ∷ xs) = if test c then p else first_match test xs

unfoldable pub match_from : (current : Ptr) → (Ptr → Bool) → Cells → Ptr
unfolding first_match
match_from current test xs =
    if among current xs && test (content_at current xs) then current else first_match test xs

-- The list with its cursor where a search leaves it.
abbrev pub with_cursor : LinkedList → Ptr → LinkedList
with_cursor l rc = if rc == null then l else record l { current = rc }

first_match-mem :
    {es : Elements} {b p : Ptr} (test : Ptr → Bool) {xs : Cells}
    → Seg es null b p xs
    → IsCursor (first_match test xs) xs
unfolding first_match
first_match-mem test nil = refl
first_match-mem test (cons {c} {xs} e out s) = ground (arith, first_match-mem test s)

pub match_from-mem :
    {es : Elements} {p : Ptr} (current : Ptr) (test : Ptr → Bool) {xs : Cells}
    → Seg es null null p xs
    → IsCursor (match_from current test xs) xs
unfolding match_from
match_from-mem current test {xs} s = ground (arith, first_match-mem test s)

module _ {es : Elements} (bs : Blocks) where
  pub list_next_element_lem :
      (l : LinkedList) {b p q c : Ptr}
      → Points es p b q c
      → list_next_element l p (heap es bs) ≡ returned q (heap es bs)
  unfolding list_next_element
  list_next_element_lem l e = rw (not_null e, load_lem e bs) refl

  find_loop_lem :
      (k : ℕ) (l : LinkedList) (test : Ptr → Bool) {b p : Ptr} (at : Ptr) {xs : Cells}
      → Seg es null b p xs
      → list_next_element l at (heap es bs) ≡ returned p (heap es bs)
      → length xs < k
      → find_loop k l test at (heap es bs) ≡ returned (first_match test xs) (heap es bs)
  unfolding find_loop first_match
  find_loop_lem zero l test at s next fuel = absurd (omega arith)
  find_loop_lem (suc k) l test at nil next fuel = rw next refl
  find_loop_lem (suc k) l test at (cons {p} {c} e out s) next fuel =
      rw (next, not_null e, load_lem e bs)
        (elim (Bool-cases (test c)) [
          | inl hit ↦ rw hit refl
          | inr miss ↦
              rw miss (find_loop_lem k l test p s (list_next_element_lem l e) (omega arith))
        ])

  module _ (fuel : ℕ) {l : LinkedList} {xs : Cells} (is : IsList es l xs)
      (enough : length xs < fuel) where
    scan_lem :
        (test : Ptr → Bool)
        → scan fuel l test (heap es bs)
          ≡ returned (first_match test xs, with_cursor l (first_match test xs)) (heap es bs)
    unfolding scan list_next_element
    scan_lem test = rw (find_loop_lem fuel l test null is.chain refl enough) refl

    -- In a well-linked list, with more fuel than it has elements, `ListFindItem` returns the
    -- element at the cursor where its content passes the test, or else the first one that does, or
    -- else `NULL`; it leaves the cursor at what it found, and memory as it was.
    pub list_find_item-match_from :
        (content : Ptr) (callback : Option (Ptr → Ptr → Bool))
        → let rc = match_from l.current (content_matches callback content) xs in
          list_find_item fuel l content callback (heap es bs)
          ≡ returned (rc, with_cursor l rc) (heap es bs)
    unfolding list_find_item match_from
    list_find_item-match_from content callback =
        let test = content_matches callback content in
        let c = content_at l.current xs in
        elim (Bool-cases (l.current == null)) [
          | inl nowhere ↦
              let gone : l.current ∉ xs =
                ap (λ a. among a xs) (let e : l.current ≡ null = ground arith in e)
                ∙ null-not-mem is.chain in
              rw (nowhere, gone) (scan_lem test)
          | inr somewhere ↦
              let i : l.current ∈ xs = rw somewhere at is.current in
              let (q, s) = split l.current is.chain i in
              rw (somewhere, load_lem s.at bs, i)
                (elim (Bool-cases (test c)) [
                  | inl hit ↦ rw (hit, somewhere) refl
                  | inr miss ↦ rw miss (scan_lem test)
                ])
        ]

zero_of : (a : Ptr) → (a == null) ≡ true → null ≡ a
zero_of a h = ground arith

module _ (fuel : ℕ) {es : Elements} {bs : Blocks} {l : LinkedList} {xs : Cells}
    (is : IsList es l xs) (enough : length xs < fuel) (content : Ptr)
    (callback : Option (Ptr → Ptr → Bool)) (free_content : Bool) where
  Removed-missing :
      Removed es bs l.size xs null (next_cursor l.current null xs) free_content l (heap es bs)
  unfolding released
  Removed-missing = record {
    list = rw (erase-not-mem null xs out) is;
    gone = λ j. cc (j, out);
    same = λ x o. refl;
    blocks = rw (content_at-not-mem null xs out) (sym (released-null free_content));
    same_size = refl;
    current = rw (after-not-mem null xs out) (sym (keep l.current));
  }
    where
      out : null ∉ xs
      out = null-not-mem is.chain

      released-null : (f : Bool) → released f null bs ≡ bs
      released-null true = refl
      released-null false = refl

      keep : (s : Ptr) → (if s == null then null else s) ≡ s
      keep s = ground arith

  -- In a well-linked list, with more fuel than it has elements, `ListUnlink` takes out the element
  -- that `ListFindItem` finds, and nothing else, and says whether there was one. It frees the
  -- element, and its content where that is asked for and is a block that can be freed. A cursor at
  -- the element moves to the next one, and other cursors stay.
  pub list_unlink-Removed :
      let a = match_from l.current (content_matches callback content) xs in
      CanFree free_content (content_at a xs) bs
      → Returns
          (λ (b, l') g.
            (b ≡ not (a == null))
            × Removed es bs l.size xs a (next_cursor l.current a xs) free_content l' g)
          (list_unlink fuel l content callback free_content (heap es bs))
  unfolding list_unlink
  list_unlink-Removed ok =
      let a = match_from l.current (content_matches callback content) xs in
      rw (list_find_item-match_from bs fuel is enough content callback)
        (elim (Bool-cases (a == null)) [
          | inl none_found ↦ rw none_found (
              returns (
                refl,
                subst
                    (λ (x : Ptr).
                      Removed es bs l.size xs x (next_cursor l.current x xs) free_content l
                        (heap es bs))
                    (zero_of a none_found) Removed-missing,
              ))
          | inr hit ↦ rw hit (
              Returns.bind
                (unlink_current-Removed l.current free_content is.chain is.last is.count is.bounded
                  is.current
                  (rw hit at (match_from-mem l.current (content_matches callback content) is.chain))
                  ok)
                λ l' g r. returns (refl, r))
        ])
