-- ===== src/Properties/Copying.antt =====
-- `MQTTProperties_copy`.
use mathlib.Core.List.{append-nil, append_assoc}
use mqtt_client.Prelude.{Bool, List, [], refl, sym, true, ℕ, ◌++◌, ◌+◌, ◌∙◌, ◌∷◌, ◌≡◌}
use mqtt_client.Prelude.Predicates.{All}
use mqtt_client.Prelude.Run.{done}
use mqtt_client.Properties.{Properties, Property, copy_entries, no_properties, properties_copy}
use mqtt_client.Properties.Adding.{properties_add-IsWf}
use mqtt_client.Properties.Entry.{IsSound, IsWf, entries_of-stored, stored, stored_facts}

copy_entries-stored :
    (mem : ℕ → ℕ → Bool) (i : ℕ) (props : List Property) (result : Properties)
    → ((i k : ℕ) → mem i k ≡ true)
    → IsWf result
    → All IsSound props
    → (copy : Properties) × (copy_entries mem i props result ≡ done copy)
      × IsWf copy
      × (stored copy ≡ stored result ++ props)
unfolding copy_entries
copy_entries-stored mem i [] result ok wf h = (result, refl, wf, sym (append-nil (stored result)))
copy_entries-stored mem i (prop ∷ props) result ok wf (hp, h) =
    let (next, added, wf', held, sum) =
      properties_add-IsWf (mem i) result prop (ok i 0) (ok i 1) (ok i 2) wf hp in
    let (copy, run, wf'', all) = copy_entries-stored mem (i + 1) props next ok wf' h in
    (copy, rw added run, wf'', all ∙ rw held (append_assoc (stored result) (prop ∷ []) props))

-- Given memory, the copy of a well-formed list is well formed and holds the same properties in the
-- same order, with the same length.
pub properties_copy-stored :
    (mem : ℕ → ℕ → Bool) (props : Properties)
    → ((i k : ℕ) → mem i k ≡ true)
    → IsWf props
    → (copy : Properties) × (properties_copy mem props ≡ done copy)
      × IsWf copy
      × (stored copy ≡ stored props)
      × (copy.count ≡ props.count)
      × (copy.total ≡ props.total)
unfolding properties_copy
properties_copy-stored mem props ok wf =
    let (counted, summed, all) =
      stored_facts props.array props.count props.max_count props.total wf in
    let read = entries_of-stored props.array props.count props.max_count props.total wf in
    let (copy, run, wf', same) =
      copy_entries-stored mem 0 (stored props) no_properties ok (refl, refl) all in
    let (counted', summed', all') =
      stored_facts copy.array copy.count copy.max_count copy.total wf' in
    (copy, rw read run, wf', same, counted' ∙ rw same (sym counted), summed' ∙ rw same (sym summed))
