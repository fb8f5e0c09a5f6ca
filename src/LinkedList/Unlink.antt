-- ===== src/LinkedList/Unlink.antt =====
-- `ListUnlink` from the element found on: the cursor's element is taken out of the list.
use mqtt_client.LinkedList.{LinkedList, link_next, link_prev, release, unlink_current}
use mqtt_client.LinkedList.Chains.{
  IsCursor, IsList, SameOutside, head-of-Seg, head_of, link_next_lem, link_prev_lem,
}
use mqtt_client.Memory.{
  Blocks, Elements, Heap, Ptr, element, forget, free_block, heap, null, returned, write,
}
use mqtt_client.Memory.Points.{
  Points, Points-same, Points-write, free_element_lem, load_lem, set_content_lem,
}
use mqtt_client.Memory.Returns.{Returns, returns}
use mqtt_client.Memory.Segments.{
  Cells, Seg, after, among-append, append, before, content_at, erase, last_of, ne_of_mem,
  ne_of_not-mem, spared, ◌∈◌,
}
use mqtt_client.Memory.Splitting.{
  Disjoint-swap, Split, among-erase, erase-before-after, last_of-after, last_of-erase, length-erase,
  not-mem-erase, not-mem-parts, self-not-mem-erase, split,
}
use mqtt_client.Prelude.{
  Bool, Bool-cases, [], ap, arith, false, if◌then◌else◌, inl, inr, length, none, refl, some, true,
  ℕ, ◌<◌, ◌==◌, ◌^◌, ◌||◌, ◌∙◌, ◌∷◌, ◌≡◌,
}

-- What is left of the other blocks when `free_content` asks for the release of `c`.
unfoldable pub released : Bool → Ptr → Blocks → Blocks
released false c bs = bs
released true c bs = if c == null then bs else forget bs c

abbrev pub CanFree : Bool → Ptr → Blocks → Type 0
CanFree free_content c bs = free_content ≡ true → ((c == null) || bs c) ≡ true

pub free_block_lem :
    (c : Ptr) (es : Elements) (bs : Blocks)
    → ((c == null) || bs c) ≡ true
    → free_block c (heap es bs) ≡ returned tt (heap es (released true c bs))
unfolding free_block released
free_block_lem c es bs ok = ground arith

-- The cursor after the element at `a` among gone: behind it, if it was there.
abbrev pub next_cursor : (saved a : Ptr) → Cells → Ptr
next_cursor saved a xs = if saved == a then head_of (after a xs) else saved

-- The outcome of taking the element at `a` out of the cells `xs` of a list whose `size` was as given
-- with the cursor at `cursor` then.
pub record Removed (es : Elements) (bs : Blocks) (size : ℕ) (xs : Cells) (a : Ptr) (cursor : Ptr)
    (free_content : Bool) (l' : LinkedList) (g : Heap) : Type 0 where
  pub list : IsList g.elements l' (erase a xs)
  pub gone : a ∈ xs → g.elements a ≡ none
  pub same : SameOutside xs es g.elements
  pub blocks : g.blocks ≡ released free_content (content_at a xs) bs
  pub same_size : l'.size ≡ size
  pub current : l'.current ≡ cursor

-- The links around the element.
pub unlink_links :
    {es : Elements} (bs : Blocks) {p a q : Ptr} (last : Ptr) (xs : Cells)
    → Split es null null p a xs q
    → last ≡ last_of null xs
    → a ∈ xs
    → (first : Ptr) × (gs : Elements) × (hs : Elements) × (link_next
          (last_of null (before a xs))
          q
          p
          (heap es bs)
        ≡ returned first (heap gs bs))
      × (link_prev q (last_of null (before a xs)) last (heap gs bs)
          ≡ returned (last_of null (erase a xs)) (heap hs bs))
      × Seg hs null null first (erase a xs)
      × SameOutside (erase a xs) es gs
      × SameOutside (erase a xs) es hs
unfolding write
unlink_links {es} bs {p} {a} {q} last xs s e i =
    let ys = before a xs in
    let zs = after a xs in
    let (first, gs, run, t, same) = link_next_lem bs ys q s.front in
    let back = spared s.back (λ x j. same x (Disjoint-swap ys zs s.apart x j)) in
    let (hs, run', t', same') =
      link_prev_lem bs zs (last_of null ys) back last (e ∙ last_of-after null a xs i) in
    let front = spared t (λ x j. same' x (s.apart x j)) in
    let chain = append ys front t' s.apart in
    (
      first,
      gs,
      hs,
      run,
      rw (last_of-erase null a xs i) run',
      rw (erase-before-after a xs i) chain,
      λ x o. same x (not-mem-parts x a xs i o).0,
      λ x o. same' x (not-mem-parts x a xs i o).1 ∙ same x (not-mem-parts x a xs i o).0,
    )

release_lem :
    {hs : Elements} (bs : Blocks) {a b q c : Ptr} (free_content : Bool)
    → Points hs a b q c
    → CanFree free_content c bs
    → (ks : Elements) × (release free_content c a (heap hs bs)
        ≡ returned tt (heap ks (released free_content c bs)))
      × (ks a ≡ none)
      × ((x : Ptr) → (x == a) ≡ false → ks x ≡ hs x)
unfolding release write released
release_lem {hs} bs {a} {b} {q} {c} true e ok =
    let e' = Points-write e b q null in
    (
      write (write hs a (some (element b q null))) a none,
      rw
          (
            free_block_lem c hs bs (ok refl),
            set_content_lem e (released true c bs) null,
            free_element_lem e' (released true c bs),
          )
          refl,
      ground arith,
      λ x n. ground arith,
    )
release_lem {hs} bs {a} false e ok =
    (write hs a none, rw (free_element_lem e bs) refl, ground arith, λ x n. ground arith)

head_of-mem : (zs : Cells) → (head_of zs == null) ≡ false → head_of zs ∈ zs
head_of-mem [] n = cc
head_of-mem ((p, c) ∷ zs) n = ground arith

among-after-erase : (x a : Ptr) (xs : Cells) → a ∈ xs → x ∈ after a xs → x ∈ erase a xs
among-after-erase x a xs i j =
    rw (erase-before-after a xs i, among-append x (before a xs) (after a xs), j) (ground arith)

next-current :
    {es : Elements} (saved a : Ptr) (xs : Cells) {b p q : Ptr}
    → Split es null b p a xs q
    → a ∈ xs
    → IsCursor saved xs
    → IsCursor (if saved == a then q else saved) (erase a xs)
next-current saved a xs s i ok = elim (Bool-cases (saved == a)) [
  | inl here ↦
      rw (here, head-of-Seg (after a xs) s.back)
        (elim (Bool-cases (head_of (after a xs) == null)) [
          | inl end ↦ rw end refl
          | inr more ↦ rw more (among-after-erase _ a xs i (head_of-mem (after a xs) more))
        ])
  | inr other ↦ rw other (elim (Bool-cases (saved == null)) [
    | inl nowhere ↦ rw nowhere refl
    | inr some_cell ↦ rw some_cell (among-erase saved a xs (ground arith) other)
  ])
]

module _ {es : Elements} {bs : Blocks} {l : LinkedList} {xs : Cells} (saved : Ptr)
    (free_content : Bool) where
  pub unlink_current-Removed :
      Seg es null null l.first xs
      → l.last ≡ last_of null xs
      → l.count ≡ length xs
      → length xs < 2 ^ 31
      → IsCursor saved xs
      → l.current ∈ xs
      → CanFree free_content (content_at l.current xs) bs
      → Returns
          (Removed es bs l.size xs l.current (next_cursor saved l.current xs) free_content)
          (unlink_current l saved free_content (heap es bs))
  unfolding unlink_current
  unlink_current-Removed chain last count bounded cursor i ok =
      let a = l.current in
      let (q, s) = split a chain i in
      let (first, gs, hs, run, run', chain', same, same') = unlink_links bs l.last xs s last i in
      let out = self-not-mem-erase s i in
      let at_g = Points-same {gs = gs} s.at (same a out) in
      let at_h = Points-same {gs = hs} s.at (same' a out) in
      let (ks, run'', gone, same'') = release_lem bs free_content at_h ok in
      rw (load_lem s.at bs, run, load_lem at_g bs, run', load_lem at_h bs, run'')
        (returns (record {
          list = record {
            chain = spared chain' (λ x j. same'' x (ne_of_mem (erase a xs) x a j out));
            last = refl;
            count = ground (arith, length-erase a xs i);
            bounded = ground (arith, length-erase a xs i);
            current = next-current saved a xs s i cursor;
          };
          gone = λ j. gone;
          same = λ x o. same'' x (ne_of_not-mem xs x a o i) ∙ same' x (not-mem-erase x a xs o);
          blocks = refl;
          same_size = refl;
          current =
              ap (λ (y : Ptr). if saved == a then y else saved) (head-of-Seg (after a xs) s.back);
        }))
