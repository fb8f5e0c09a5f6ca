-- ===== src/LinkedList/Runs.antt =====
-- Runs of the list operations on a list of two elements, and the theorems at that list.
use mqtt_client.LinkedList.{
  LinkedList, content_matches, list_detach_head, list_empty, list_find, list_find_item, list_insert,
  list_next_element, list_pop_tail, list_prev_element, list_unlink,
}
use mqtt_client.LinkedList.Chains.{IsList, head_of}
use mqtt_client.LinkedList.Empty.{Without, list_empty-Without, released_all}
use mqtt_client.LinkedList.Ends.{list_detach_head-Removed, list_pop_tail-Removed}
use mqtt_client.LinkedList.Find.{
  list_find_item-match_from, list_unlink-Removed, match_from, with_cursor,
}
use mqtt_client.LinkedList.Insert.{Added, insert_before, list_insert-Added}
use mqtt_client.LinkedList.Iterate.{neighbours}
use mqtt_client.LinkedList.Unlink.{Removed, next_cursor, released}
use mqtt_client.Memory.{
  Blocks, Elements, Heap, Outcome, Ptr, element, forget, heap, load, null, out_of_fuel, returned,
  undefined, write,
}
use mqtt_client.Memory.Returns.{Returns}
use mqtt_client.Memory.Segments.{Cells, after, before, cons, content_at, last_of, nil}
use mqtt_client.Prelude.{
  Option, [], arith, false, if◌then◌else◌, none, not, refl, some, true, ◌==◌, ◌||◌, ◌∷◌, ◌≡◌,
}

-- The elements at 16 and 32 with the contents 1 and 2, and the cursor at the second.
abbrev two_elements : Elements
two_elements a =
    if a == 16 then some (element 0 32 1) else if a == 32 then some (element 16 0 2) else none

abbrev two_blocks : Blocks
two_blocks a = (a == 1) || (a == 2)

abbrev two_cells : Cells
two_cells = (16, 1) ∷ (32, 2) ∷ []

abbrev two_list : LinkedList
two_list = record { first = 16; last = 32; current = 32; count = 2; size = 8 }

two_list-IsList : IsList two_elements two_list two_cells
two_list-IsList = record {
  chain =
      cons (record { ne_null = omega arith; holds = refl }) refl
        (cons (record { ne_null = omega arith; holds = refl }) refl nil);
  last = refl;
  count = refl;
  bounded = omega arith;
  current = refl;
}

abbrev two_heap : Heap
two_heap = heap two_elements two_blocks

abbrev found_at : Outcome (Ptr × LinkedList) → Option (Ptr × Ptr)
found_at (returned (rc, l) h) = some (rc, l.current)
found_at undefined = none
found_at out_of_fuel = none

find_first : found_at (list_find 3 two_list 1 two_heap) ≡ some (16, 16)
unfolding list_find load
find_first = refl

-- An element that is released while the list leads to it is a fault of the next operation.
dangling : found_at (list_find 3 two_list 1 (heap (write two_elements 32 none) two_blocks)) ≡ none
unfolding list_find load write
dangling = refl

list_find_item-match_from_example :
    list_find_item 3 two_list 1 none two_heap
    ≡ returned
        (
          match_from 32 (content_matches none 1) two_cells,
          with_cursor two_list (match_from 32 (content_matches none 1) two_cells),
        )
        two_heap
list_find_item-match_from_example =
    list_find_item-match_from two_blocks 3 two_list-IsList (omega arith) 1 none

list_unlink-Removed_example :
    Returns
      (λ (b, l') g.
        (b ≡ not (match_from 32 (content_matches none 2) two_cells == null))
        × Removed two_elements two_blocks 8 two_cells
            (match_from 32 (content_matches none 2) two_cells)
            (next_cursor 32 (match_from 32 (content_matches none 2) two_cells) two_cells)
            true
            l'
            g)
      (list_unlink 3 two_list 2 none true two_heap)
unfolding match_from content_at content_matches
list_unlink-Removed_example =
    list_unlink-Removed 3 two_list-IsList (omega arith) 2 none true (λ e. refl)

list_insert-Added_example :
    Returns
      (Added two_elements two_blocks two_list 4 two_cells (insert_before 32 (48, 3) two_cells) 48)
      (list_insert 48 two_list 3 4 32 two_heap)
list_insert-Added_example =
    list_insert-Added two_blocks two_list-IsList 48 refl (omega arith) (omega arith) 3 4 32 refl

list_detach_head-Removed_example :
    Returns
      (λ (content, l') g.
        (content ≡ content_at 16 two_cells)
        × Removed two_elements two_blocks 8 two_cells 16 (next_cursor 32 16 two_cells) false l' g)
      (list_detach_head two_list two_heap)
list_detach_head-Removed_example = list_detach_head-Removed two_blocks two_list-IsList

list_pop_tail-Removed_example :
    Returns
      (λ (content, l') g.
        (content ≡ content_at 32 two_cells)
        × Removed two_elements two_blocks 8 two_cells 32
            (last_of null (before 32 two_cells))
            false
            l'
            g)
      (list_pop_tail two_list two_heap)
list_pop_tail-Removed_example = list_pop_tail-Removed two_blocks two_list-IsList

list_empty-Without_example :
    Returns
      (λ l' g.
        IsList g.elements l' []
        × Without two_cells two_elements g.elements
        × (g.blocks ≡ released_all two_cells two_blocks))
      (list_empty 3 two_list two_heap)
unfolding released forget
list_empty-Without_example =
    list_empty-Without two_blocks two_list-IsList 3 (omega arith) (refl, (refl, tt))

neighbours_example :
    (list_next_element two_list 16 two_heap ≡ returned (head_of (after 16 two_cells)) two_heap)
    × (list_prev_element two_list 16 two_heap
        ≡ returned (last_of null (before 16 two_cells)) two_heap)
neighbours_example = neighbours two_blocks two_list-IsList 16 refl
