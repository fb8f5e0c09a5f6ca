-- ===== src/Properties/Runs.antt =====
-- Examples of property lists.
use mqtt_client.Prelude.{
  Bool, List, [], arith, false, none, refl, some, true, ℕ, ◌++◌, ◌+◌, ◌∷◌, ◌≡◌,
}
use mqtt_client.Prelude.Int.{pos}
use mqtt_client.Prelude.Run.{done, ◌>>=◌}
use mqtt_client.Properties.{
  Properties, Property, get_type, properties_add, properties_copy, properties_len, properties_write,
  utf_8_encoded_string,
}
use mqtt_client.Properties.Adding.{properties_add-IsWf}
use mqtt_client.Properties.Copying.{properties_copy-stored}
use mqtt_client.Properties.Entry.{IsSound, IsWf, property_size, stored, total_size, value_size}
use mqtt_client.Properties.Writing.{properties_bytes, properties_len-write, properties_write-put}
use mqtt_client.Wire.{fresh, put}

-- A CONTENT_TYPE property with the value "ab".
abbrev content_type : Property
content_type = record {
  identifier = 3;
  byte = 0;
  integer2 = 0;
  integer4 = 0;
  content = record { len = 2; chars = some (97 ∷ 98 ∷ []) };
  value = record { len = 0; chars = none };
}

content_type-IsSound : IsSound content_type
unfolding get_type
content_type-IsSound = record {
  type = utf_8_encoded_string;
  known = refl;
  has_value = (97 ∷ 98 ∷ [], record { holds = refl; sized = refl });
}

abbrev one_property : Properties
one_property = record { count = 1; max_count = 10; total = 5; array = some (content_type ∷ []) }

one_property-IsWf : IsWf one_property
unfolding total_size property_size value_size get_type
one_property-IsWf = (refl, omega arith, refl, (content_type-IsSound, tt))

abbrev allocates : ℕ → Bool
allocates k = true

abbrev refuses : ℕ → Bool
refuses k = false

properties_add-IsWf_example :
    (props' : Properties) × (properties_add allocates one_property content_type
      ≡ done (pos 0, props'))
    × IsWf props'
    × (stored props' ≡ (content_type ∷ []) ++ content_type ∷ [])
    × (props'.total ≡ 5 + property_size content_type)
properties_add-IsWf_example =
    properties_add-IsWf allocates one_property content_type refl refl refl one_property-IsWf
      content_type-IsSound

abbrev ten_times : Property → List Property
ten_times p = p ∷ p ∷ p ∷ p ∷ p ∷ p ∷ p ∷ p ∷ p ∷ p ∷ []

-- A full array of ten properties.
abbrev full : Properties
full = record { count = 10; max_count = 10; total = 50; array = some (ten_times content_type) }

properties_write-put_example :
    properties_write (some one_property) (fresh 9)
    ≡ (put (properties_bytes one_property) (fresh 9) >>= λ c'. done (pos (1 + 5), c'))
properties_write-put_example = properties_write-put one_property (fresh 9) one_property-IsWf

properties_len-write_example :
    properties_write (some one_property) (fresh (properties_len (some one_property)))
    ≡ done (pos (1 + 5), record { written = properties_bytes one_property; room = 0 })
properties_len-write_example = properties_len-write one_property one_property-IsWf (omega arith)

properties_copy-stored_example :
    (copy : Properties) × (properties_copy (λ i. allocates) one_property ≡ done copy)
    × IsWf copy
    × (stored copy ≡ content_type ∷ [])
    × (copy.count ≡ 1)
    × (copy.total ≡ 5)
properties_copy-stored_example =
    properties_copy-stored (λ i. allocates) one_property (λ i k. refl) one_property-IsWf
