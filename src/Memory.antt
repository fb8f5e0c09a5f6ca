-- ===== src/Memory.antt =====
-- The memory that src/utils/LinkedList.c works on: list elements at addresses, and the blocks that
-- the elements' contents point at. Commands read, write and release them; a read, a write or a
-- release of an address that holds nothing is undefined behaviour.
pub mod Points
pub mod Returns
pub mod Segments
pub mod Splitting
use mqtt_client.Prelude.{Bool, Option, false, if◌then◌else◌, none, some, ℕ, ◌==◌}

abbrev pub Ptr : Type 0
Ptr = ℕ

abbrev pub null : Ptr
null = 0

pub record ListElement : Type 0 where
  pub prev : Ptr
  pub next : Ptr
  pub content : Ptr

abbrev pub element : Ptr → Ptr → Ptr → ListElement
element b q c = record { prev = b; next = q; content = c }

abbrev pub Elements : Type 0
Elements = Ptr → Option ListElement

unfoldable pub write : Elements → Ptr → Option ListElement → Elements
write es p c a = if a == p then c else es a

-- The other blocks that `malloc` has returned and `free` has not yet had back.
abbrev pub Blocks : Type 0
Blocks = Ptr → Bool

unfoldable pub forget : Blocks → Ptr → Blocks
forget bs p a = if a == p then false else bs a

pub record Heap : Type 0 where
  pub elements : Elements
  pub blocks : Blocks

abbrev pub heap : Elements → Blocks → Heap
heap es bs = record { elements = es; blocks = bs }

-- A result and the memory after it, undefined behaviour, or a loop that its fuel was too little for.
pub data Outcome (A : Type 0) : Type 0 where
  returned : A → Heap → Outcome A
  undefined : Outcome A
  out_of_fuel : Outcome A

abbrev pub Cmd : Type 0 → Type 0
Cmd A = Heap → Outcome A

abbrev pub pure : {A : Type 0} → A → Cmd A
pure = returned

abbrev pub then_run : {A B : Type 0} → Outcome A → (A → Cmd B) → Outcome B
then_run (returned x g) rest = rest x g
then_run undefined rest = undefined
then_run out_of_fuel rest = out_of_fuel

infixl 5 ◌>>=◌ ◌>>◌
abbrev pub ◌>>=◌ : {A B : Type 0} → Cmd A → (A → Cmd B) → Cmd B
first >>= rest = λ h. then_run (first h) rest

abbrev pub ◌>>◌ : {A B : Type 0} → Cmd A → Cmd B → Cmd B
first >> second = first >>= λ _. second

-- What `malloc` gives (`some e`) or `free` takes back (`none`).
abbrev pub put : Ptr → Option ListElement → Cmd (Unit {0})
put p c h = returned tt (heap (write h.elements p c) h.blocks)

-- `*p` for an element.
unfoldable pub load : Ptr → Cmd ListElement
load p h =
    if p == null
    then undefined
    else elim (h.elements p) [ none ↦ undefined | some e ↦ returned e h ]

-- Assignments to the fields of `*p`.
unfoldable pub set_prev : Ptr → Ptr → Cmd (Unit {0})
set_prev p b = do e ← load p; put p (some (record e { prev = b }))

unfoldable pub set_next : Ptr → Ptr → Cmd (Unit {0})
set_next p q = do e ← load p; put p (some (record e { next = q }))

unfoldable pub set_content : Ptr → Ptr → Cmd (Unit {0})
set_content p c = do e ← load p; put p (some (record e { content = c }))

-- `free` of an element, and of another block, where `NULL` is let pass.
unfoldable pub free_element : Ptr → Cmd (Unit {0})
free_element p = load p >> put p none

unfoldable pub free_block : Ptr → Cmd (Unit {0})
free_block p h =
    if p == null
    then returned tt h
    else if h.blocks p
    then returned tt (heap h.elements (forget h.blocks p))
    else undefined
