-- ===== src/Properties/Entry.antt =====
-- What a property list holds: entries with a known identifier and readable strings, counted, within
-- the array, and with the sum of their lengths.
use mqtt_client.Prelude.{
  List, Option, [], arith, length, none, refl, some, ℕ, ◌++◌, ◌+◌, ◌<◌, ◌^◌, ◌∷◌, ◌≡◌, ◌≤◌,
}
use mqtt_client.Prelude.Predicates.{All, Bytes}
use mqtt_client.Prelude.Run.{done}
use mqtt_client.Properties.{
  Properties, Property, PropertyType, binary_data, byte_type, entries_of, four_byte_integer,
  get_type, two_byte_integer, utf_8_encoded_string, utf_8_string_pair, variable_byte_integer,
}
use mqtt_client.RemainingLength.{encode_count}
use mqtt_client.Wire.Writing.{IsReadable}

-- The bytes of a property's value as the protocol counts them.
unfoldable pub value_size : PropertyType → Property → ℕ
value_size byte_type prop = 1
value_size two_byte_integer prop = 2
value_size four_byte_integer prop = 4
value_size variable_byte_integer prop = encode_count prop.integer4
value_size binary_data prop = 2 + prop.content.len
value_size utf_8_encoded_string prop = 2 + prop.content.len
value_size utf_8_string_pair prop = 4 + prop.content.len + prop.value.len

-- With the identifier.
unfoldable pub property_size : Property → ℕ
property_size prop = elim (get_type prop.identifier) [
  | none ↦ 0
  | some type ↦ value_size type prop + 1
]

unfoldable pub total_size : List Property → ℕ
total_size [] = 0
total_size (prop ∷ props) = property_size prop + total_size props

-- The strings that a type makes the code copy lead to their bytes, and a variable byte integer is
-- one of the protocol.
abbrev pub HasValue : PropertyType → Property → Type 0
HasValue byte_type prop = Unit
HasValue two_byte_integer prop = Unit
HasValue four_byte_integer prop = Unit
HasValue variable_byte_integer prop = prop.integer4 < 128 ^ 4
HasValue binary_data prop = (bs : Bytes) × IsReadable prop.content bs
HasValue utf_8_encoded_string prop = (bs : Bytes) × IsReadable prop.content bs
HasValue utf_8_string_pair prop =
    ((bs : Bytes) × IsReadable prop.content bs) × ((bs : Bytes) × IsReadable prop.value bs)

pub record IsSound (prop : Property) : Type 0 where
  pub type : PropertyType
  pub known : get_type prop.identifier ≡ some type
  pub has_value : HasValue type prop

abbrev pub HasEntries : Option (List Property) → (count max_count total : ℕ) → Type 0
HasEntries none count max_count total = (count ≡ 0) × (total ≡ 0)
HasEntries (some entries) count max_count total =
    (count ≡ length entries)
    × (count ≤ max_count)
    × (total ≡ total_size entries)
    × All IsSound entries

abbrev pub IsWf : Properties → Type 0
IsWf props = HasEntries props.array props.count props.max_count props.total

-- The entries of a well-formed list.
abbrev pub stored : Properties → List Property
stored props = elim props.array [ none ↦ [] | some xs ↦ xs ]

pub total_size-append :
    (xs ys : List Property) → total_size (xs ++ ys) ≡ total_size xs + total_size ys
unfolding total_size
total_size-append [] ys = omega arith
total_size-append (x ∷ xs) ys = omega (arith, total_size-append xs ys)

-- What well-formedness says of the entries, array or no array.
pub stored_facts :
    (array : Option (List Property)) (n m t : ℕ)
    → HasEntries array n m t
    → let p : Properties = record { count = n; max_count = m; total = t; array = array } in
      (n ≡ length (stored p)) × (t ≡ total_size (stored p)) × All IsSound (stored p)
unfolding total_size
stored_facts none n m t (empty, zero_total) = (empty, zero_total, tt)
stored_facts (some old) n m t (counted, within, summed, sound) = (counted, summed, sound)

pub entries_of-stored :
    (array : Option (List Property)) (n m t : ℕ)
    → HasEntries array n m t
    → let p : Properties = record { count = n; max_count = m; total = t; array = array } in
      entries_of p ≡ done (stored p)
unfolding entries_of
entries_of-stored none n m t (empty, zero_total) = rw empty
entries_of-stored (some old) n m t h = refl
