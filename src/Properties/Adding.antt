-- ===== src/Properties/Adding.antt =====
-- `MQTTProperties_add` on every branch.
use mqtt_client.Prelude.{
  Bool, List, Option, [], ap, arith, false, length-append, lt→ltb, none, refl, some, true, ℕ, ◌++◌,
  ◌+◌, ◌<◌, ◌∷◌, ◌≡◌, ◌≤◌,
}
use mqtt_client.Prelude.Int.{pos, to_int}
use mqtt_client.Prelude.Predicates.{All-append, Bytes}
use mqtt_client.Prelude.Run.{done, fault}
use mqtt_client.Properties.{
  Properties, Property, PropertyType, add_value, binary_data, byte_type, datadup, four_byte_integer,
  get_type, make_room, mqtt_invalid_property_id, paho_memory_error, properties_add, store_entry,
  two_byte_integer, utf_8_encoded_string, utf_8_string_pair, variable_byte_integer,
}
use mqtt_client.Properties.Entry.{
  HasEntries, HasValue, IsSound, IsWf, property_size, stored, stored_facts, total_size,
  total_size-append, value_size,
}
use mqtt_client.RemainingLength.Encode.{vbi_len-encode}
use mqtt_client.Wire.{LenString}
use mqtt_client.Wire.Writing.{IsReadable, copy_from-IsReadable}

module _ (mem : ℕ → Bool) (content_copied : mem 1 ≡ true) (value_copied : mem 2 ≡ true) where
  datadup_eq :
      (allocated : Bool) (s : LenString) (bs : Bytes)
      → allocated ≡ true
      → IsReadable s bs
      → datadup allocated s ≡ done s.chars
  unfolding datadup
  datadup_eq allocated s bs ok r = rw (ok, copy_from-IsReadable s bs r, r.holds)

  -- With memory for the copies the entry is the property, and its length is that of the protocol.
  add_value-size :
      (type : PropertyType) (prop : Property)
      → HasValue type prop
      → add_value mem type prop ≡ done (value_size type prop, prop)
  unfolding add_value value_size
  add_value-size byte_type prop h = refl
  add_value-size two_byte_integer prop h = refl
  add_value-size four_byte_integer prop h = refl
  add_value-size variable_byte_integer prop h =
      let small : to_int prop.integer4 ≡ pos prop.integer4 = ground arith in
      rw (small, vbi_len-encode prop.integer4 h)
  add_value-size binary_data prop (bs, r) = rw (datadup_eq (mem 1) prop.content bs content_copied r)
  add_value-size utf_8_encoded_string prop (bs, r) =
      rw (datadup_eq (mem 1) prop.content bs content_copied r)
  add_value-size utf_8_string_pair prop ((bs, r), (bs', r')) =
      rw
        (
          datadup_eq (mem 1) prop.content bs content_copied r,
          datadup_eq (mem 2) prop.value bs' value_copied r',
        )
        (ap (λ k. done (k, prop)) (omega arith))

-- What `make_room` leaves, given memory: the entries as they were, and a place for one more.
record HasRoom (props r : Properties) : Type 0 where
  same_array : r.array ≡ some (stored props)
  same_count : r.count ≡ props.count
  same_total : r.total ≡ props.total
  place : r.count < r.max_count

make_room-HasRoom :
    (array : Option (List Property)) (n m t : ℕ)
    → HasEntries array n m t
    → let p : Properties = record { count = n; max_count = m; total = t; array = array } in
      HasRoom p (make_room true p)
unfolding make_room
make_room-HasRoom none n m t (empty, zero_total) = record {
  same_array = refl;
  same_count = refl;
  same_total = refl;
  place = omega arith;
}
make_room-HasRoom (some old) n m t (counted, within, summed, sound) = ground arith

-- The new entry behind the old ones.
store_entry-grown :
    (mem : ℕ → Bool) (type : PropertyType) (prop : Property) (props r : Properties) (size : ℕ)
    → HasRoom props r
    → add_value mem type prop ≡ done (size, prop)
    → store_entry mem type prop r
      ≡ done (
        pos 0,
        record r {
          count = r.count + 1;
          total = r.total + (size + 1);
          array = some (stored props ++ prop ∷ []);
        },
      )
unfolding store_entry
store_entry-grown mem type prop props r size room added =
    rw (room.same_array, lt→ltb r.count r.max_count room.place, added)

property_size-known :
    {prop : Property} (sound : IsSound prop) → property_size prop ≡ value_size sound.type prop + 1
unfolding property_size
property_size-known sound = rw (sound.known, property_size)

-- `MQTTProperties_add` to a well-formed list, when all memory is given, of a property with a known
-- identifier, whose strings can be read to their given lengths and whose variable byte integer, if it
-- has one, is below 128 ^ 4: the result is 0, the property stands behind the others as it was passed,
-- the list stays well formed, and its length grows by the size of the property.
pub properties_add-IsWf :
    (mem : ℕ → Bool) (props : Properties) (prop : Property)
    → mem 0 ≡ true
    → mem 1 ≡ true
    → mem 2 ≡ true
    → IsWf props
    → IsSound prop
    → (props' : Properties) × (properties_add mem props prop ≡ done (pos 0, props'))
      × IsWf props'
      × (stored props' ≡ stored props ++ prop ∷ [])
      × (props'.total ≡ props.total + property_size prop)
unfolding properties_add
properties_add-IsWf mem props prop m0 m1 m2 wf sound =
    let r = make_room true props in
    let room = make_room-HasRoom props.array props.count props.max_count props.total wf in
    let (counted, summed, all) =
      stored_facts props.array props.count props.max_count props.total wf in
    let size = value_size sound.type prop in
    let added = add_value-size mem m1 m2 sound.type prop sound.has_value in
    (
      record r {
        count = r.count + 1;
        total = r.total + (size + 1);
        array = some (stored props ++ prop ∷ []);
      },
      rw (sound.known, properties_add, m0)
          (store_entry-grown mem sound.type prop props r size room added),
      (
        omega (arith, length-append (stored props) (prop ∷ []), room.same_count),
        omega (arith, room.place),
        rw (total_size-append (stored props) (prop ∷ []), room.same_total)
            (unfold total_size in omega (arith, property_size-known sound)),
        All-append IsSound (stored props) (prop ∷ []) all (sound, tt),
      ),
      refl,
      rw (room.same_total, property_size-known sound) refl,
    )

-- An unknown identifier is refused, and the list stays as it was.
pub properties_add-unknown :
    (mem : ℕ → Bool) (props : Properties) (prop : Property)
    → get_type prop.identifier ≡ none
    → properties_add mem props prop ≡ done (mqtt_invalid_property_id, props)
unfolding properties_add
properties_add-unknown mem props prop h = rw (h, properties_add)

-- After a failed `realloc` of a full array of at least ten entries, where `MQTTProperties_add` answers
-- PAHO_MEMORY_ERROR, the next addition of a known property stores it outside a fresh array of ten
-- entries.
pub properties_add_after_failure :
    (mem mem' : ℕ → Bool) (props : Properties) (old : List Property) (prop prop' : Property)
    {type type' : PropertyType}
    → mem 0 ≡ false
    → mem' 0 ≡ true
    → props.array ≡ some old
    → props.count ≡ props.max_count
    → 10 ≤ props.max_count
    → get_type prop.identifier ≡ some type
    → get_type prop'.identifier ≡ some type'
    → (props' : Properties) × (properties_add mem props prop ≡ done (paho_memory_error, props'))
      × (properties_add mem' props' prop' ≡ fault)
unfolding properties_add make_room store_entry
properties_add_after_failure mem mem' props old prop prop' m0 m1 e full ten known known' = (
  record {
    count = props.count;
    max_count = props.max_count + 10;
    total = props.total;
    array = none;
  },
  ground arith,
  ground arith,
)
