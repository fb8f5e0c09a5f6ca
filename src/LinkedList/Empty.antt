-- ===== src/LinkedList/Empty.antt =====
-- `ListEmpty`, `ListFree` and `ListFreeNoContent`: all elements are freed, and the contents where
-- that is asked for.
use mqtt_client.Memory.Returns
use mqtt_client.LinkedList.{
  LinkedList, empty_loop, free_loop, list_empty, list_free_no_content, list_zero, release_first,
}
use mqtt_client.LinkedList.Chains.{IsList}
use mqtt_client.LinkedList.Unlink.{free_block_lem, released}
use mqtt_client.Memory.{
  Blocks, Elements, Ptr, element, forget, free_block, heap, null, returned, write,
}
use mqtt_client.Memory.Points.{
  Points, Points-write, free_element_lem, load_lem, not_null, set_content_lem,
}
use mqtt_client.Memory.Returns.{Returns, returns}
use mqtt_client.Memory.Segments.{
  Cells, Seg, among, cons, ne_of_mem, nil, spared, spared-write, write_at,
}
use mqtt_client.Prelude.{
  Bool-cases, [], arith, if◌then◌else◌, inl, inr, length, none, refl, some, suc, true, zero, ℕ, ◌<◌,
  ◌==◌, ◌||◌, ◌∙◌, ◌∷◌, ◌≡◌,
}

-- `gs` is `es` less the elements of `xs`.
abbrev pub Without : Cells → Elements → Elements → Type 0
Without xs es gs = (a : Ptr) → gs a ≡ (if among a xs then none else es a)

-- The blocks left when the contents of `xs` have been freed in turn.
unfoldable pub released_all : Cells → Blocks → Blocks
unfolding released
released_all [] bs = bs
released_all ((p, c) ∷ xs) bs = released_all xs (released true c bs)

-- Each content is a block that can be freed when its turn comes.
abbrev pub CanFreeAll : Cells → Blocks → Type 0
CanFreeAll [] bs = Unit
CanFreeAll ((p, c) ∷ xs) bs = (((c == null) || bs c) ≡ true) × CanFreeAll xs (released true c bs)

release_first_lem :
    {es : Elements} {p b q c : Ptr} (bs : Blocks)
    → Points es p b q c
    → ((c == null) || bs c) ≡ true
    → (gs : Elements) × (release_first c p (heap es bs)
        ≡ returned tt (heap gs (released true c bs)))
      × ((a : Ptr) → gs a ≡ (if a == p then none else es a))
unfolding release_first released write
release_first_lem {es} {p} {b} {q} {c} bs e ok = elim (Bool-cases (c == null)) [
  | inl nothing ↦ (write es p none, rw (nothing, free_element_lem e bs) refl, λ a. refl)
  | inr something ↦
      let free : free_block c (heap es bs) ≡ returned tt (heap es (forget bs c)) =
        free_block_lem c es bs ok ∙ rw (released, something) refl in
      let e' = Points-write e b q null in
      (
        write (write es p (some (element b q null))) p none,
        rw
            (
              something,
              free,
              set_content_lem e (forget bs c) null,
              free_element_lem e' (forget bs c),
            )
            refl,
        λ a. ground arith,
      )
]

empty_loop-Without :
    (k : ℕ) {es : Elements} {b p : Ptr} (bs : Blocks) (xs : Cells)
    → Seg es null b p xs
    → CanFreeAll xs bs
    → length xs < k
    → Returns
        (λ _ g. Without xs es g.elements × (g.blocks ≡ released_all xs bs))
        (empty_loop k p (heap es bs))
unfolding empty_loop released_all
empty_loop-Without zero bs xs s ok fuel = absurd (omega arith)
empty_loop-Without (suc k) bs [] nil ok fuel = returns (λ a. refl, refl)
empty_loop-Without (suc k) bs ((p, c) ∷ xs) (cons e out s) (free, ok) fuel =
    let (gs, run, gone) = release_first_lem bs e free in
    let t = spared {gs = gs} s (λ a i. gone a ∙ rw (ne_of_mem xs a p i out) refl) in
    rw (not_null e, load_lem e bs, run)
      (Returns.mono (empty_loop-Without k (released true c bs) xs t ok (omega arith))
        λ _ g (gone', blocks). (λ a. ground (arith, gone a, gone' a), blocks))

free_loop-Without :
    (k : ℕ) {es : Elements} {b p : Ptr} (bs : Blocks) (xs : Cells)
    → Seg es null b p xs
    → length xs < k
    → Returns (λ _ g. Without xs es g.elements × (g.blocks ≡ bs)) (free_loop k p (heap es bs))
unfolding free_loop
free_loop-Without zero bs xs s fuel = absurd (omega arith)
free_loop-Without (suc k) bs [] nil fuel = returns (λ a. refl, refl)
free_loop-Without (suc k) {es} bs ((p, c) ∷ xs) (cons e out s) fuel =
    rw (not_null e, load_lem e bs, free_element_lem e bs)
      (Returns.mono (free_loop-Without k bs xs (spared-write p none s out) (omega arith))
        λ _ g (gone, blocks). (λ a. ground (arith, write_at es p none a, gone a), blocks))

list_zero-IsList : (es : Elements) → IsList es list_zero []
unfolding list_zero
list_zero-IsList es = record {
  chain = nil;
  last = refl;
  count = refl;
  bounded = omega arith;
  current = refl;
}

module _ {es : Elements} (bs : Blocks) {l : LinkedList} {xs : Cells} (is : IsList es l xs)
    (fuel : ℕ) (enough : length xs < fuel) where
  -- `ListEmpty` of a well-linked list, with more fuel than it has elements, frees exactly the
  -- elements of the list and their contents, where these can all be freed, and leaves the empty
  -- list.
  pub list_empty-Without :
      CanFreeAll xs bs
      → Returns
          (λ l' g.
            IsList g.elements l' [] × Without xs es g.elements × (g.blocks ≡ released_all xs bs))
          (list_empty fuel l (heap es bs))
  unfolding list_empty
  list_empty-Without ok =
      Returns.bind (empty_loop-Without fuel bs xs is.chain ok enough)
        λ _ g (gone, blocks). returns (list_zero-IsList g.elements, gone, blocks)

  -- `ListFreeNoContent` frees exactly the elements and the structure at `a_list`.
  pub list_free_no_content-Without :
      (a_list : Ptr)
      → ((a_list == null) || bs a_list) ≡ true
      → Returns
          (λ _ g. Without xs es g.elements × (g.blocks ≡ released true a_list bs))
          (list_free_no_content fuel a_list l (heap es bs))
  unfolding list_free_no_content
  list_free_no_content-Without a_list ok =
      Returns.bind (free_loop-Without fuel bs xs is.chain enough) λ _ g (gone, blocks).
        rw (blocks, free_block_lem a_list g.elements bs ok) (returns (gone, refl))
