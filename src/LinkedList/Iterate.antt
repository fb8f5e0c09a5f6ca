-- ===== src/LinkedList/Iterate.antt =====
-- `ListNextElement` and `ListPrevElement`: iteration in both directions.
use mqtt_client.LinkedList.{LinkedList, list_next_element, list_prev_element}
use mqtt_client.LinkedList.Chains.{IsCursor, IsList, head-of-Seg, head_of}
use mqtt_client.Memory.{Blocks, Elements, Ptr, heap, null, returned}
use mqtt_client.Memory.Points.{load_lem, not_null}
use mqtt_client.Memory.Segments.{Cells, after, before, last_of, ◌∈◌}
use mqtt_client.Memory.Splitting.{split}
use mqtt_client.Prelude.{Bool-cases, if◌then◌else◌, inl, inr, refl, ◌==◌, ◌≡◌}

module _ {es : Elements} (bs : Blocks) {l : LinkedList} {xs : Cells} (is : IsList es l xs) where
  step_inside :
      (a : Ptr)
      → a ∈ xs
      → (list_next_element l a (heap es bs) ≡ returned (head_of (after a xs)) (heap es bs))
        × (list_prev_element l a (heap es bs) ≡ returned (last_of null (before a xs)) (heap es bs))
  unfolding list_next_element list_prev_element
  step_inside a i =
      let (q, s) = split a is.chain i in
      (
        rw (not_null s.at, load_lem s.at bs) (rw (head-of-Seg (after a xs) s.back) refl),
        rw (not_null s.at, load_lem s.at bs) refl,
      )

  -- From an element of the list, the one that `ListNextElement` gives is the first behind it and the
  -- one that `ListPrevElement` gives the last in front of it; from `NULL` they start with the list's
  -- first and last element. At the end of the way both give `NULL`, and nothing is changed.
  pub neighbours :
      (a : Ptr)
      → IsCursor a xs
      → (list_next_element l a (heap es bs)
          ≡ returned (if a == null then head_of xs else head_of (after a xs)) (heap es bs))
        × (list_prev_element l a (heap es bs)
            ≡ returned (last_of null (if a == null then xs else before a xs)) (heap es bs))
  unfolding list_next_element list_prev_element
  neighbours a at = elim (Bool-cases (a == null)) [
    | inl start ↦ (rw start (rw (head-of-Seg xs is.chain) refl), rw start (rw is.last refl))
    | inr inside ↦
        let (next, prev) = step_inside a (rw inside at at) in
        (rw inside (rw inside at next), rw inside (rw inside at prev))
  ]
