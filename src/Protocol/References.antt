-- ===== src/Protocol/References.antt =====
-- Reference counts: messages release the publications that they refer to.
-- How many of the messages refer to the publication at an address.
use mathlib.Core.Path.{subst}
use mqtt_client.Entries.{
  Unique, drop-Unique, drop_entry, find-drop_other, find-drop_self, find-key, find-set, find_entry,
  set-Unique, set_entry,
}
use mqtt_client.LinkedList.{decrement}
use mqtt_client.Prelude.{
  Bool-cases, List, Option, [], arith, if◌then◌else◌, inl, inr, none, refl, some, sym, ℕ, ◌+◌, ◌-◌,
  ◌<◌, ◌==◌, ◌^◌, ◌∙◌, ◌∷◌, ◌≡◌, ◌≤◌,
}
use mqtt_client.Prelude.Run.{Ends, Ends-inv, ends}
use mqtt_client.Protocol.{Message, Publication, address_of, empty_message_list, remove_publication}

unfoldable pub points_to : ℕ → Option ℕ → ℕ
points_to a none = 0
points_to a (some b) = if a == b then 1 else 0

unfoldable pub references : ℕ → List Message → ℕ
unfolding points_to
references a [] = 0
references a (m ∷ msgs) = points_to a m.publish + references a msgs

-- A publication after the release of `k` references.
unfoldable pub released : ℕ → Option Publication → Option Publication
released k none = none
released k (some p) =
    if k == 0
    then some p
    else if p.refcount == k
    then none
    else some (record p { refcount = p.refcount - k })

-- At the address is a publication with at least `k` references, or nothing and `k` is 0.
unfoldable pub Covers : Option Publication → ℕ → Type 0
Covers none k = k ≡ 0
Covers (some p) k = (k ≤ p.refcount) × (p.refcount < 2 ^ 32)

released-released :
    (j k : ℕ) (o : Option Publication)
    → Covers o (j + k)
    → released k (released j o) ≡ released (j + k) o
unfolding released Covers
released-released j k none c = refl
released-released j k (some p) (le, lt) = ground arith

released-Covers : (j k : ℕ) (o : Option Publication) → Covers o (j + k) → Covers (released j o) k
unfolding released Covers
released-Covers j k none c = omega arith
released-Covers j k (some p) (le, lt) = ground arith

pub released-zero : (o : Option Publication) → released 0 o ≡ o
unfolding released
released-zero none = refl
released-zero (some p) = refl

decrement_lem : (n : ℕ) → 0 < n → n < 2 ^ 32 → decrement n ≡ n - 1
decrement_lem n above lt = omega arith

module _ (b : ℕ) (pubs : List Publication) (u : Unique address_of pubs) where
  -- What is found at each address when the publication that `p` is at `b` becomes `o`.
  dropped-found :
      (p : Publication)
      → find_entry address_of b pubs ≡ some p
      → p.refcount ≡ 1
      → (a : ℕ)
      → find_entry address_of a (drop_entry address_of b pubs)
        ≡ released (points_to a (some b)) (find_entry address_of a pubs)
  unfolding released points_to
  dropped-found p e one a = elim (Bool-cases (a == b)) [
    | inl here ↦
        let same : a ≡ b = ground arith in
        rw (here, same, find-drop_self address_of b pubs u, e, one) refl
    | inr other ↦
        rw (other, find-drop_other address_of b a pubs (ground arith))
          (sym (released-zero (find_entry address_of a pubs)))
  ]

  lowered-found :
      (p : Publication)
      → find_entry address_of b pubs ≡ some p
      → 1 < p.refcount
      → (a : ℕ)
      → find_entry address_of a
          (set_entry address_of b (record p { refcount = p.refcount - 1 }) pubs)
        ≡ released (points_to a (some b)) (find_entry address_of a pubs)
  unfolding released points_to
  lowered-found p e more a =
      let at : address_of p ≡ b = find-key address_of b pubs p e in
      rw (find-set address_of b a (record p { refcount = p.refcount - 1 }) pubs at, e)
        (elim (Bool-cases (a == b)) [
          | inl here ↦ let same : a ≡ b = ground arith in rw (here, same, e) (ground arith)
          | inr other ↦ rw other (sym (released-zero (find_entry address_of a pubs)))
        ])

  remove_one :
      (k : ℕ) (o : Option Publication)
      → find_entry address_of b pubs ≡ o
      → Covers o (1 + k)
      → Ends
          (λ pubs'.
            Unique address_of pubs'
            × ((a : ℕ)
                → find_entry address_of a pubs'
                  ≡ released (points_to a (some b)) (find_entry address_of a pubs)))
          (remove_publication (some b) pubs)
  unfolding remove_publication Covers
  remove_one k none e c = absurd (omega arith)
  remove_one k (some p) e (le, lt) =
      let d : decrement p.refcount ≡ p.refcount - 1 = decrement_lem p.refcount (omega arith) lt in
      elim (Bool-cases (p.refcount - 1 == 0)) [
        | inl none_left ↦
            rw (remove_publication, e, d, none_left)
              (ends (drop-Unique address_of b pubs u, dropped-found p e (ground arith)))
        | inr some_left ↦
            rw (remove_publication, e, d, some_left)
              (ends (
                set-Unique address_of b (record p { refcount = p.refcount - 1 }) pubs
                    (find-key address_of b pubs p e) u,
                lowered-found p e (ground arith),
              ))
      ]

points_to_self : (b : ℕ) → points_to b (some b) ≡ 1
unfolding points_to
points_to_self b = ground arith

pub remove_publication-released :
    (o : Option ℕ) (k : ℕ → ℕ) (pubs : List Publication)
    → Unique address_of pubs
    → ((a : ℕ) → Covers (find_entry address_of a pubs) (points_to a o + k a))
    → Ends
        (λ pubs'.
          Unique address_of pubs'
          × ((a : ℕ)
              → find_entry address_of a pubs'
                ≡ released (points_to a o) (find_entry address_of a pubs)))
        (remove_publication o pubs)
unfolding remove_publication points_to
remove_publication-released none k pubs u c =
    ends (u, λ a. sym (released-zero (find_entry address_of a pubs)))
remove_publication-released (some b) k pubs u c =
    remove_one b pubs u (k b) (find_entry address_of b pubs) refl
      (subst (λ (n : ℕ). Covers (find_entry address_of b pubs) (n + k b)) (points_to_self b) (c b))

emptied :
    (msgs : List Message) (pubs : List Publication)
    → Unique address_of pubs
    → ((a : ℕ) → Covers (find_entry address_of a pubs) (references a msgs))
    → Ends
        (λ pubs'.
          (a : ℕ)
          → find_entry address_of a pubs'
            ≡ released (references a msgs) (find_entry address_of a pubs))
        (empty_message_list msgs pubs)
unfolding empty_message_list references
emptied [] pubs u c = ends (λ a. sym (released-zero (find_entry address_of a pubs)))
emptied (m ∷ msgs) pubs u c =
    let (pubs1, ran, (u1, found)) =
      Ends-inv (remove_publication-released m.publish (λ a. references a msgs) pubs u c) in
    let covered : (a : ℕ) → Covers (find_entry address_of a pubs1) (references a msgs) = λ a.
      rw (found a) (
        released-Covers (points_to a m.publish) (references a msgs) (find_entry address_of a pubs)
          (c a)) in
    let (pubs2, ran2, found2) = Ends-inv (emptied msgs pubs1 u1 covered) in
    rw (ran, ran2)
      (ends (λ a.
        found2 a
        ∙ rw (found a) (
            released-released (points_to a m.publish) (references a msgs)
              (find_entry address_of a pubs) (c a))))

-- If the reference counts cover the references of a list of messages, then
-- `MQTTProtocol_emptyMessageList` ends, without following a publication that is gone. The messages
-- release the publications that they refer to, each as often as they do: one without a reference
-- left goes, one that others refer to keeps their count, and all others stay.
pub empty_message_list-released :
    (msgs : List Message) (pubs : List Publication) (a : ℕ)
    → Unique address_of pubs
    → ((b : ℕ) → Covers (find_entry address_of b pubs) (references b msgs))
    → Ends
        (λ pubs'.
          find_entry address_of a pubs'
          ≡ released (references a msgs) (find_entry address_of a pubs))
        (empty_message_list msgs pubs)
empty_message_list-released msgs pubs a u c =
    let (pubs', ran, found) = Ends-inv (emptied msgs pubs u c) in rw ran (ends (found a))
