-- ===== src/Properties.antt =====
-- MQTTProperties.c: the property list of MQTT version 5, with `MQTTProperty` and `MQTTProperties` of
-- utils/TypeDefine.h.
pub mod Entry
pub mod Adding
pub mod Writing
pub mod Copying
mod Runs
use Prim.Native.Char.{code}
use mqtt_client.Prelude.{
  Bool, List, Option, [], if◌then◌else◌, ltb, none, some, ℕ, ◌%◌, ◌++◌, ◌+◌, ◌==◌, ◌∷◌,
}
use mqtt_client.Prelude.Int.{ltb_ℤ, negsuc, pos, to_int, ℤ, ◌+ℤ◌}
use mqtt_client.Prelude.Predicates.{Bytes}
use mqtt_client.Prelude.Run.{Run, done, fault, ◌>>=◌}
use mqtt_client.RemainingLength.{encode, encode_count, vbi_len}
use mqtt_client.Wire.{
  Cursor, LenString, copy_from, put, write_char, write_int, write_int4, write_len_string,
}

-- `enum MQTTPropertyTypes`.
pub data PropertyType : Type 0 where
  byte_type two_byte_integer four_byte_integer variable_byte_integer binary_data : PropertyType
  utf_8_encoded_string utf_8_string_pair : PropertyType

-- `namesToTypes`, with the codes of `enum MQTTPropertyCodes`.
abbrev names_to_types : List (ℕ × PropertyType)
names_to_types =
    (1, byte_type)
    ∷ (2, four_byte_integer)
    ∷ (3, utf_8_encoded_string)
    ∷ (8, utf_8_encoded_string)
    ∷ (9, binary_data)
    ∷ (11, variable_byte_integer)
    ∷ (17, four_byte_integer)
    ∷ (18, utf_8_encoded_string)
    ∷ (19, two_byte_integer)
    ∷ (21, utf_8_encoded_string)
    ∷ (22, binary_data)
    ∷ (23, byte_type)
    ∷ (24, four_byte_integer)
    ∷ (25, byte_type)
    ∷ (26, utf_8_encoded_string)
    ∷ (28, utf_8_encoded_string)
    ∷ (31, utf_8_encoded_string)
    ∷ (33, two_byte_integer)
    ∷ (34, two_byte_integer)
    ∷ (35, two_byte_integer)
    ∷ (36, byte_type)
    ∷ (37, byte_type)
    ∷ (38, utf_8_string_pair)
    ∷ (39, four_byte_integer)
    ∷ (40, byte_type)
    ∷ (41, byte_type)
    ∷ (42, byte_type)
    ∷ []

lookup_type : ℕ → List (ℕ × PropertyType) → Option PropertyType
lookup_type code [] = none
lookup_type code ((name, type) ∷ rows) = if name == code then some type else lookup_type code rows

-- `none` stands for -1.
pub get_type : ℕ → Option PropertyType
unfolding lookup_type
get_type code = lookup_type code names_to_types

-- The fields are the members of the union, each what a read of that member gives.
pub record Property : Type 0 where
  pub identifier : ℕ
  pub byte : ℕ
  pub integer2 : ℕ
  pub integer4 : ℕ
  pub content : LenString
  pub value : LenString

-- `array` is the first `count` entries of the allocated array, `none` for `NULL`.
pub record Properties : Type 0 where
  pub count : ℕ
  pub max_count : ℕ
  pub total : ℕ
  pub array : Option (List Property)

-- `MQTTProperties_initializer`.
abbrev pub no_properties : Properties
no_properties = record { count = 0; max_count = 0; total = 0; array = none }

-- `MQTTProperties_len`; `none` is the null pointer.
unfoldable pub properties_len : Option Properties → ℕ
properties_len none = 1
properties_len (some props) = props.total + vbi_len (pos props.total)

-- `datadup`: on failure the pointer is `NULL`.
datadup : (allocated : Bool) → LenString → Run (Option Bytes)
datadup allocated s = if allocated then (do bs ← copy_from s; done (some bs)) else done none

-- The `switch` of `MQTTProperties_add`: the length of the value, and the entry with its strings
-- copied. `mem k` says whether the k-th `malloc` of the call succeeds.
add_value : (mem : ℕ → Bool) → PropertyType → Property → Run (ℕ × Property)
unfolding datadup
add_value mem byte_type prop = done (1, prop)
add_value mem two_byte_integer prop = done (2, prop)
add_value mem four_byte_integer prop = done (4, prop)
add_value mem variable_byte_integer prop = done (vbi_len (to_int prop.integer4), prop)
add_value mem binary_data prop = do
  copied ← datadup (mem 1) prop.content
  done (
    2 + prop.content.len,
    record prop { content = record { len = prop.content.len; chars = copied } },
  )
add_value mem utf_8_encoded_string prop = do
  copied ← datadup (mem 1) prop.content
  done (
    2 + prop.content.len,
    record prop { content = record { len = prop.content.len; chars = copied } },
  )
add_value mem utf_8_string_pair prop = do
  copied ← datadup (mem 1) prop.content
  paired ← datadup (mem 2) prop.value
  done (
    2 + prop.content.len + (2 + prop.value.len),
    record prop {
      content = record { len = prop.content.len; chars = copied };
      value = record { len = prop.value.len; chars = paired };
    },
  )

-- The array before the new entry is stored: allocated, grown by ten entries, or as it was.
make_room : (allocated : Bool) → Properties → Properties
make_room allocated props = elim props.array [
  | none ↦ record props { max_count = 10; array = if allocated then some [] else none }
  | some entries ↦
      if props.count == props.max_count
      then record props {
        max_count = props.max_count + 10;
        array = if allocated then some entries else none;
      }
      else props
]

abbrev pub mqtt_invalid_property_id : ℤ
mqtt_invalid_property_id = negsuc 1

abbrev pub paho_memory_error : ℤ
paho_memory_error = negsuc 98

-- The entry is stored at `count`; behind `max_count` entries that is a fault.
store_entry : (mem : ℕ → Bool) → PropertyType → Property → Properties → Run (ℤ × Properties)
unfolding add_value
store_entry mem type prop props = elim props.array [
  | none ↦ done (paho_memory_error, props)
  | some entries ↦
      if ltb props.count props.max_count
      then (do
        (len, entry) ← add_value mem type prop
        done (
          pos 0,
          record props {
            count = props.count + 1;
            total = props.total + (len + 1);
            array = some (entries ++ entry ∷ []);
          },
        ))
      else fault
]

-- `MQTTProperties_add`, with its result and the list afterwards.
pub properties_add : (mem : ℕ → Bool) → Properties → Property → Run (ℤ × Properties)
properties_add mem props prop = elim (get_type prop.identifier) [
  | none ↦ done (mqtt_invalid_property_id, props)
  | some type ↦ store_entry mem type prop (make_room (mem 0) props)
]

-- `MQTTProperty_write`: the result and the place behind the property.
write_value : PropertyType → Property → Cursor → Run (ℤ × Cursor)
write_value byte_type prop c = do c ← write_char prop.byte c; done (pos 1, c)
write_value two_byte_integer prop c = do c ← write_int prop.integer2 c; done (pos 2, c)
write_value four_byte_integer prop c = do c ← write_int4 (to_int prop.integer4) c; done (pos 4, c)
write_value variable_byte_integer prop c = do
  c ← put (encode prop.integer4) c
  done (pos (encode_count prop.integer4), c)
write_value binary_data prop c = do
  c ← write_len_string prop.content c
  done (pos (prop.content.len + 2), c)
write_value utf_8_encoded_string prop c = do
  c ← write_len_string prop.content c
  done (pos (prop.content.len + 2), c)
write_value utf_8_string_pair prop c = do
  c ← write_len_string prop.content c
  c ← write_len_string prop.value c
  done (pos (prop.content.len + prop.value.len + 4), c)

pub property_write : Property → Cursor → Run (ℤ × Cursor)
property_write prop c = elim (get_type prop.identifier) [
  | none ↦ done (negsuc 0 +ℤ pos 1, c)
  | some type ↦ do
    c ← write_char (prop.identifier % 256) c
    (rc, c) ← write_value type prop c
    done (rc +ℤ pos 1, c)
]

-- The loop of `MQTTProperties_write`; `len` and `rc` are the function's variables.
write_entries : List Property → (len rc : ℤ) → Cursor → Run (ℤ × Cursor)
write_entries [] len rc c = done (if ltb_ℤ rc (pos 0) then rc else len, c)
write_entries (prop ∷ props) len rc c = do
  (rc, c) ← property_write prop c
  let rest = write_entries props (len +ℤ rc) rc c
  if ltb_ℤ rc (pos 0) then done (rc, c) else rest

-- What a loop over `array[0]` to `array[count - 1]` reads.
pub entries_of : Properties → Run (List Property)
entries_of props = elim props.array [
  | none ↦ if props.count == 0 then done [] else fault
  | some entries ↦ done entries
]

-- `MQTTProperties_write`; `none` is the null pointer.
pub properties_write : Option Properties → Cursor → Run (ℤ × Cursor)
properties_write none c = do c ← put (encode 0) c; done (pos 1, c)
properties_write (some props) c = do
  c ← put (encode props.total) c
  entries ← entries_of props
  write_entries entries (pos 1) (pos 1) c

-- The loop of `MQTTProperties_copy`. A failed addition is logged, and the copy goes on. `mem i` is
-- what `malloc` answers during the addition of the i-th entry.
copy_entries : (mem : ℕ → ℕ → Bool) → (i : ℕ) → List Property → Properties → Run Properties
copy_entries mem i [] result = done result
copy_entries mem i (prop ∷ props) result = do
  (rc, result) ← properties_add (mem i) result prop
  copy_entries mem (i + 1) props result

pub properties_copy : (mem : ℕ → ℕ → Bool) → Properties → Run Properties
properties_copy mem props = do entries ← entries_of props; copy_entries mem 0 entries no_properties
