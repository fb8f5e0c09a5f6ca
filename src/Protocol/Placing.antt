-- ===== src/Protocol/Placing.antt =====
-- The list of messages that came in, when a message takes the place of one with its identifier.
use mathlib.Core.Path.{subst}
use mqtt_client.Entries.{
  Unique, drop_entry, find-append, find-set, find_entry, set_entry, some-injective,
}
use mqtt_client.Prelude.{
  Bool-cases, List, Option, [], ap, arith, false, inl, inr, none, refl, some, true, ℕ, ◌++◌, ◌==◌,
  ◌∙◌, ◌∷◌, ◌≡◌, ◌≢◌,
}
use mqtt_client.Prelude.Run.{done, ◌>>=◌}
use mqtt_client.Protocol.{Message, Publication, block_of, msgid_of, remove_publication}
use mqtt_client.Protocol.Incoming.{insert_message, place_at}

insert-drop :
    (b : ℕ) (m : Message) (msgs : List Message)
    → m.block ≢ b
    → drop_entry block_of b (insert_message b m msgs) ≡ set_entry block_of b m msgs
unfolding drop_entry insert_message set_entry
insert-drop b m [] new = refl
insert-drop b m (x ∷ msgs) new = ground (arith, insert-drop b m msgs)

-- What is found by its identifier is found by its block.
find-block :
    (id : ℕ) (msgs : List Message) (old : Message)
    → find_entry msgid_of id msgs ≡ some old
    → find_entry block_of old.block msgs ≢ none
unfolding find_entry
find-block id [] old e = λ n. ground arith
find-block id (x ∷ msgs) old e = elim (Bool-cases (x.msgid == id)) [
  | inl here ↦ λ n.
      let same : x.block ≡ old.block = ap block_of (some-injective (rw here at e)) in
      ground (arith, n)
  | inr other ↦ λ n. let later = find-block id msgs old (rw other at e) in ground (arith, n, later)
]

set-block :
    (id : ℕ) (m : Message) (msgs : List Message) (old : Message)
    → Unique block_of msgs
    → find_entry msgid_of id msgs ≡ some old
    → set_entry block_of old.block m msgs ≡ set_entry msgid_of id m msgs
unfolding find_entry set_entry
set-block id m [] old u e = refl
set-block id m (x ∷ msgs) old (out, u) e = elim (Bool-cases (x.msgid == id)) [
  | inl here ↦
      let same : x.block ≡ old.block = ap block_of (some-injective (rw here at e)) in
      let yes : (x.block == old.block) ≡ true = ground arith in rw (here, yes) refl
  | inr other ↦ elim (Bool-cases (x.block == old.block)) [
    | inl same ↦
        let at : x.block ≡ old.block = ground arith in
        absurd (
          find-block id msgs old (rw other at e)
            (subst (λ (n : ℕ). find_entry block_of n msgs ≡ none) at out))
    | inr apart ↦ rw (other, apart) (ap (λ ms. x ∷ ms) (set-block id m msgs old u (rw other at e)))
  ]
]

-- The list in which the message has the place of the one that was found, or the last.
unfoldable pub placed : Message → List Message → Option Message → List Message
placed m msgs none = msgs ++ m ∷ []
placed m msgs (some old) = set_entry msgid_of m.msgid m msgs

abbrev pub old_publish : Option Message → Option ℕ
old_publish none = none
old_publish (some old) = old.publish

pub place_at_lem :
    (m : Message) (msgs : List Message) (pubs : List Publication) (o : Option Message)
    → Unique block_of msgs
    → find_entry block_of m.block msgs ≡ none
    → find_entry msgid_of m.msgid msgs ≡ o
    → place_at true m msgs pubs o
      ≡ (remove_publication (old_publish o) pubs >>= λ pubs'. done (placed m msgs o, pubs'))
unfolding place_at placed remove_publication
place_at_lem m msgs pubs none u new e = refl
place_at_lem m msgs pubs (some old) u new e =
    let apart : m.block ≢ old.block = λ same.
      find-block m.msgid msgs old e
        (subst (λ (n : ℕ). find_entry block_of n msgs ≡ none) same new) in
    rw (insert-drop old.block m msgs apart, set-block m.msgid m msgs old u e) refl

module _ (m : Message) (msgs : List Message) where
  pub placed-found :
      (o : Option Message)
      → find_entry msgid_of m.msgid msgs ≡ o
      → find_entry msgid_of m.msgid (placed m msgs o) ≡ some m
  unfolding placed
  placed-found none e = find-append msgid_of m.msgid msgs m ∙ rw e (ground arith)
  placed-found (some old) e = find-set msgid_of m.msgid m.msgid m msgs refl ∙ rw e (ground arith)

  pub placed-other :
      (id : ℕ) (o : Option Message)
      → id ≢ m.msgid
      → find_entry msgid_of id (placed m msgs o) ≡ find_entry msgid_of id msgs
  unfolding placed
  placed-other id none apart = find-append msgid_of id msgs m ∙ ground arith
  placed-other id (some old) apart =
      let no : (id == m.msgid) ≡ false = ground arith in
      find-set msgid_of m.msgid id m msgs refl ∙ rw no refl
