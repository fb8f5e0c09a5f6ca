-- ===== src/LinkedList.antt =====
-- src/utils/LinkedList.c: doubly linked lists of pointers. The `List` structure is the caller's, so
-- an operation that updates it returns the new value. What `malloc` returns is the argument `fresh`,
-- and the comparison callback an optional function on the two pointers. A loop over the elements
-- runs on `fuel`.
pub mod Chains
pub mod Ends
pub mod Empty
pub mod Find
pub mod Insert
pub mod Iterate
mod Runs
pub mod Unlink
use mqtt_client.Memory.{
  Cmd, ListElement, Ptr, element, free_block, free_element, load, null, out_of_fuel, pure, put,
  set_content, set_next, set_prev, ◌>>=◌, ◌>>◌,
}
use mqtt_client.Prelude.{
  Bool, Option, false, if◌then◌else◌, ltb, none, some, suc, true, zero, ℕ, ◌%◌, ◌&&◌, ◌+◌, ◌-◌,
  ◌==◌, ◌^◌,
}

-- `count`, an `int`, is kept as its bit pattern, and `size` is a `size_t` of 64 bits.
pub record LinkedList : Type 0 where
  pub first : Ptr
  pub last : Ptr
  pub current : Ptr
  pub count : ℕ
  pub size : ℕ

unfoldable pub list_zero : LinkedList
list_zero = record { first = null; last = null; current = null; count = 0; size = 0 }

-- The new structure's address, and its value where there is one.
unfoldable pub list_initialize : (fresh : Ptr) → Option (Ptr × LinkedList)
list_initialize fresh = if fresh == null then none else some (fresh, list_zero)

abbrev pub increment : ℕ → ℕ
increment n = (n + 1) % 2 ^ 32

abbrev pub decrement : ℕ → ℕ
decrement n = (n + 2 ^ 32 - 1) % 2 ^ 32

-- `n > 0`, for an `int`.
abbrev pub positive : ℕ → Bool
positive n = ltb 0 n && ltb n (2 ^ 31)

abbrev pub add_size : ℕ → ℕ → ℕ
add_size m n = (m + n) % 2 ^ 64

-- The pointer that leads forward to an element, and the one that leads back: a neighbour's field,
-- or the structure's where there is no neighbour.
abbrev pub link_next : (prev next first : Ptr) → Cmd Ptr
link_next prev next first = if prev == null then pure next else (do set_next prev next; pure first)

abbrev pub link_prev : (next prev last : Ptr) → Cmd Ptr
link_prev next prev last = if next == null then pure prev else (do set_prev next prev; pure last)

unfoldable pub list_append_no_malloc :
    LinkedList → (content newel : Ptr) (size : ℕ) → Cmd LinkedList
list_append_no_malloc l content newel size = do
  set_content newel content
  set_next newel null
  set_prev newel l.last
  first ← if l.first == null then pure newel else (do set_next l.last newel; pure l.first)
  pure (record l {
    first = first;
    last = newel;
    count = increment l.count;
    size = add_size l.size size;
  })

-- A new element's fields are written before they are read.
abbrev pub blank : ListElement
blank = element null null null

unfoldable pub list_append :
    (fresh : Ptr) → LinkedList → (content : Ptr) (size : ℕ) → Cmd (Ptr × LinkedList)
unfolding list_append_no_malloc
list_append fresh l content size = if fresh == null then pure (fresh, l) else do
  put fresh (some blank)
  l' ← list_append_no_malloc l content fresh size
  pure (fresh, l')

unfoldable pub list_insert :
    (fresh : Ptr) → LinkedList → (content : Ptr) (size : ℕ) (index : Ptr) → Cmd (Ptr × LinkedList)
unfolding list_append_no_malloc
list_insert fresh l content size index = if fresh == null then pure (fresh, l) else do
  put fresh (some blank)
  if index == null
      then (do l' ← list_append_no_malloc l content fresh size; pure (fresh, l'))
      else do
        set_content fresh content
        set_next fresh index
        e ← load index
        set_prev fresh e.prev
        set_prev index fresh
        n ← load fresh
        first ← link_next n.prev fresh l.first
        pure (
          fresh,
          record l { first = first; count = increment l.count; size = add_size l.size size },
        )

unfoldable pub list_next_element : LinkedList → (pos : Ptr) → Cmd Ptr
list_next_element l pos = if pos == null then pure l.first else do e ← load pos; pure e.next

unfoldable pub list_prev_element : LinkedList → (pos : Ptr) → Cmd Ptr
list_prev_element l pos = if pos == null then pure l.last else do e ← load pos; pure e.prev

-- The test on an element's content: the callback's, or equality of the pointers.
unfoldable pub content_matches : Option (Ptr → Ptr → Bool) → (content : Ptr) → Ptr → Bool
content_matches none content c = c == content
content_matches (some callback) content c = callback c content

find_loop : ℕ → LinkedList → (Ptr → Bool) → (current : Ptr) → Cmd Ptr
unfolding list_next_element
find_loop zero l test current = λ _. out_of_fuel
find_loop (suc k) l test current = do
  next ← list_next_element l current
  if next == null
      then pure null
      else do e ← load next; if test e.content then pure next else find_loop k l test next

-- The release of the element `a`, and of its content where that is asked for.
unfoldable pub release : (free_content : Bool) → (content a : Ptr) → Cmd (Unit {0})
release free_content content a = do
  if free_content then (do free_block content; set_content a null) else pure tt
  free_element a

-- The removal of the element that was found, which is `l.current`; `saved` was before.
unfoldable pub unlink_current : LinkedList → (saved : Ptr) (free_content : Bool) → Cmd LinkedList
unlink_current l saved free_content = do
  e ← load l.current
  first ← link_next e.prev e.next l.first
  e' ← load l.current
  last ← link_prev e'.next e'.prev l.last
  e'' ← load l.current
  release free_content e''.content l.current
  pure (record l {
    first = first;
    last = last;
    current = if saved == l.current then e''.next else saved;
    count = decrement l.count;
  })

module _ (fuel : ℕ) where
  scan : LinkedList → (Ptr → Bool) → Cmd (Ptr × LinkedList)
  unfolding find_loop
  scan l test = do
    rc ← find_loop fuel l test null
    pure (rc, if rc == null then l else record l { current = rc })

  unfoldable pub list_find_item :
      LinkedList → (content : Ptr) → Option (Ptr → Ptr → Bool) → Cmd (Ptr × LinkedList)
  unfolding scan content_matches
  list_find_item l content callback =
      if l.current == null then scan l (content_matches callback content) else do
        e ← load l.current
        if content_matches callback content e.content
            then pure (l.current, l)
            else scan l (content_matches callback content)

  unfoldable pub list_find : LinkedList → (content : Ptr) → Cmd (Ptr × LinkedList)
  unfolding list_find_item
  list_find l content = list_find_item l content none

  unfoldable pub list_unlink :
      LinkedList
      → (content : Ptr) → Option (Ptr → Ptr → Bool)
      → (free_content : Bool) → Cmd (Bool × LinkedList)
  unfolding list_find_item
  list_unlink l content callback free_content = do
    (rc, l') ← list_find_item l content callback
    if rc == null
        then pure (false, l')
        else do l'' ← unlink_current l' l.current free_content; pure (true, l'')

  unfoldable pub list_detach : LinkedList → (content : Ptr) → Cmd (Bool × LinkedList)
  unfolding list_unlink
  list_detach l content = list_unlink l content none false

  unfoldable pub list_remove : LinkedList → (content : Ptr) → Cmd (Bool × LinkedList)
  unfolding list_unlink
  list_remove l content = list_unlink l content none true

  unfoldable pub list_detach_item :
      LinkedList → (content : Ptr) → Option (Ptr → Ptr → Bool) → Cmd (Bool × LinkedList)
  unfolding list_unlink
  list_detach_item l content callback = list_unlink l content callback false

  unfoldable pub list_remove_item :
      LinkedList → (content : Ptr) → Option (Ptr → Ptr → Bool) → Cmd (Bool × LinkedList)
  unfolding list_unlink
  list_remove_item l content callback = list_unlink l content callback true

unfoldable pub list_detach_head : LinkedList → Cmd (Ptr × LinkedList)
list_detach_head l =
    if positive l.count
    then (do
      e ← load l.first
      if e.next == null then pure tt else set_prev e.next null
      free_element l.first
      pure (
        e.content,
        record l {
          first = e.next;
          last = if l.last == l.first then null else l.last;
          current = if l.current == l.first then e.next else l.current;
          count = decrement l.count;
        },
      ))
    else pure (null, l)

unfoldable pub list_remove_head : LinkedList → Cmd LinkedList
unfolding list_detach_head
list_remove_head l = do (content, l') ← list_detach_head l; free_block content; pure l'

unfoldable pub list_pop_tail : LinkedList → Cmd (Ptr × LinkedList)
list_pop_tail l =
    if positive l.count
    then (do
      e ← load l.last
      if e.prev == null then pure tt else set_next e.prev null
      free_element l.last
      pure (
        e.content,
        record l {
          first = if l.first == l.last then null else l.first;
          last = e.prev;
          current = if l.current == l.last then e.prev else l.current;
          count = decrement l.count;
        },
      ))
    else pure (null, l)

-- One round of `ListEmpty` on the element `first`.
unfoldable pub release_first : (content first : Ptr) → Cmd (Unit {0})
release_first content first = do
  if content == null then pure tt else (do free_block content; set_content first null)
  free_element first

empty_loop : ℕ → (first : Ptr) → Cmd (Unit {0})
empty_loop zero first = λ _. out_of_fuel
empty_loop (suc k) first =
    if first == null
    then pure tt
    else do e ← load first; release_first e.content first; empty_loop k e.next

unfoldable pub list_empty : (fuel : ℕ) → LinkedList → Cmd LinkedList
unfolding empty_loop
list_empty fuel l = do empty_loop fuel l.first; pure list_zero

unfoldable pub list_free : (fuel : ℕ) → (a_list : Ptr) → LinkedList → Cmd (Unit {0})
unfolding list_empty
list_free fuel a_list l = do list_empty fuel l; free_block a_list

free_loop : ℕ → (first : Ptr) → Cmd (Unit {0})
free_loop zero first = λ _. out_of_fuel
free_loop (suc k) first =
    if first == null then pure tt else do e ← load first; free_element first; free_loop k e.next

unfoldable pub list_free_no_content : (fuel : ℕ) → (a_list : Ptr) → LinkedList → Cmd (Unit {0})
unfolding free_loop
list_free_no_content fuel a_list l = do free_loop fuel l.first; free_block a_list
