-- ===== src/Properties/Writing.antt =====
-- `MQTTProperty_write` and `MQTTProperties_write`: the bytes on the wire, and their number.
use mqtt_client.Prelude.{
  List, Option, [], ap, arith, length, length-append, none, refl, some, ℕ, ◌%◌, ◌++◌, ◌+◌, ◌<◌, ◌^◌,
  ◌∙◌, ◌∷◌, ◌≡◌,
}
use mqtt_client.Prelude.Int.{pos, pos-nonneg, pos_add, to_int, ℤ, ◌+ℤ◌}
use mqtt_client.Prelude.Predicates.{All, Bytes}
use mqtt_client.Prelude.Run.{Run, bind_assoc, bind_cong, done, ◌>>=◌}
use mqtt_client.Properties.{
  Properties, Property, PropertyType, binary_data, byte_type, four_byte_integer, get_type,
  properties_len, properties_write, property_write, two_byte_integer, utf_8_encoded_string,
  utf_8_string_pair, variable_byte_integer, write_entries, write_value,
}
use mqtt_client.Properties.Entry.{
  HasValue, IsSound, IsWf, entries_of-stored, property_size, stored, stored_facts, total_size,
  value_size,
}
use mqtt_client.RemainingLength.{encode, encode_count}
use mqtt_client.RemainingLength.Encode.{vbi_len-encode}
use mqtt_client.Wire.{Cursor, LenString, fresh, put, write_len_string}
use mqtt_client.Wire.Int4.{int4_written, write_int4-put}
use mqtt_client.Wire.Writing.{
  IsReadable, int_bytes, put-nil, put-put_bind, put_exact, utf_bytes, write_char-put, write_int-put,
  write_len_string-put,
}
use native.Mathlib.Nat.{add_assoc, add_comm}

-- The bytes of the string that is read through `s`.
abbrev chars_of : LenString → Bytes
chars_of s = elim s.chars [ none ↦ [] | some bs ↦ bs ]

-- The value of a property on the wire.
unfoldable pub value_bytes : PropertyType → Property → Bytes
value_bytes byte_type prop = prop.byte ∷ []
value_bytes two_byte_integer prop = int_bytes prop.integer2
value_bytes four_byte_integer prop = int4_written (to_int prop.integer4)
value_bytes variable_byte_integer prop = encode prop.integer4
value_bytes binary_data prop = utf_bytes (chars_of prop.content)
value_bytes utf_8_encoded_string prop = utf_bytes (chars_of prop.content)
value_bytes utf_8_string_pair prop =
    utf_bytes (chars_of prop.content) ++ utf_bytes (chars_of prop.value)

unfoldable pub property_bytes : Property → Bytes
property_bytes prop = elim (get_type prop.identifier) [
  | none ↦ []
  | some type ↦ prop.identifier % 256 ∷ value_bytes type prop
]

unfoldable pub list_bytes : List Property → Bytes
list_bytes [] = []
list_bytes (prop ∷ props) = property_bytes prop ++ list_bytes props

write_string :
    (s : LenString) (c : Cursor)
    → (bs : Bytes) × IsReadable s bs
    → write_len_string s c ≡ put (utf_bytes (chars_of s)) c
write_string s c (bs, r) =
    write_len_string-put s bs c r ∙ ap (λ x. put (utf_bytes x) c) (same s.chars r.holds)
  where
    same : (o : Option Bytes) → o ≡ some bs → bs ≡ elim o [ none ↦ [] | some xs ↦ xs ]
    same none e = cc
    same (some xs) e = cc

-- A value is written as one block, and the result is its size.
write_value-put :
    (type : PropertyType) (prop : Property) (c : Cursor)
    → HasValue type prop
    → write_value type prop c
      ≡ (put (value_bytes type prop) c >>= λ c'. done (pos (value_size type prop), c'))
unfolding write_value value_bytes value_size
write_value-put byte_type prop c h = rw write_char-put
write_value-put two_byte_integer prop c h = rw write_int-put
write_value-put four_byte_integer prop c h = rw write_int4-put
write_value-put variable_byte_integer prop c h = refl
write_value-put binary_data prop c h =
    rw (write_string prop.content c h, add_comm prop.content.len 2)
write_value-put utf_8_encoded_string prop c h =
    rw (write_string prop.content c h, add_comm prop.content.len 2)
write_value-put utf_8_string_pair prop c (h, h') =
    let sum : prop.content.len + prop.value.len + 4 ≡ 4 + prop.content.len + prop.value.len =
      omega arith in
    simp (
      write_string prop.content c h,
      λ (c' : Cursor). write_string prop.value c' h',
      sum,
      put-put_bind,
    )

-- A known property is written as one block, identifier first, and the result is the number of bytes.
pub property_write-put :
    (prop : Property) (c : Cursor)
    → IsSound prop
    → property_write prop c
      ≡ (put (property_bytes prop) c >>= λ c'. done (pos (property_size prop), c'))
unfolding property_write property_bytes property_size
property_write-put prop c sound =
    let id = prop.identifier % 256 in
    let bytes = value_bytes sound.type prop in
    let size = value_size sound.type prop in
    rw (sound.known, property_write, property_bytes, property_size, write_char-put)
      (bind_cong (put (id ∷ []) c) _ _
          (λ c'. rw (write_value-put sound.type prop c' sound.has_value, bind_assoc, pos_add) refl)
        ∙ put-put_bind (id ∷ []) bytes c (λ c'. done (pos (size + 1), c')))

-- A property with an unknown identifier is skipped: nothing is written, and the result is 0, which
-- the caller does not take for an error.
pub property_write-unknown :
    (prop : Property) (c : Cursor)
    → get_type prop.identifier ≡ none
    → property_write prop c ≡ done (pos 0, c)
unfolding property_write ◌+ℤ◌
property_write-unknown prop c h = rw (h, property_write)

write_entries-put :
    (props : List Property) (len rc : ℕ) (c : Cursor)
    → All IsSound props
    → write_entries props (pos len) (pos rc) c
      ≡ (put (list_bytes props) c >>= λ c'. done (pos (len + total_size props), c'))
unfolding write_entries list_bytes total_size
write_entries-put [] len rc c h =
    rw (pos-nonneg rc, put-nil c) (ap (λ k. done (pos k, c)) (omega arith))
write_entries-put (prop ∷ props) len rc c (hp, h) =
    let size = property_size prop in
    let result : Cursor → Run (ℤ × Cursor) =
      λ c'. done (pos (len + (size + total_size props)), c') in
    rw (property_write-put prop c hp, bind_assoc)
      (bind_cong (put (property_bytes prop) c) _ _ (λ c'. rw (
        pos-nonneg size,
        pos_add len size,
        write_entries-put props (len + size) size c' h,
        add_assoc len size (total_size props),
      ))
        ∙ put-put_bind (property_bytes prop) (list_bytes props) c result)

length-utf_bytes :
    (s : LenString) → (bs : Bytes) × IsReadable s bs → length (utf_bytes (chars_of s)) ≡ 2 + s.len
unfolding utf_bytes int_bytes
length-utf_bytes s (bs, r) = rw (r.sized, r.holds) (omega arith)

length-value_bytes :
    (type : PropertyType) (prop : Property)
    → HasValue type prop
    → length (value_bytes type prop) ≡ value_size type prop
unfolding value_bytes value_size
length-value_bytes byte_type prop h = refl
length-value_bytes two_byte_integer prop h = unfold int_bytes in refl
length-value_bytes four_byte_integer prop h = unfold int4_written in refl
length-value_bytes variable_byte_integer prop h = unfold encode_count in refl
length-value_bytes binary_data prop h = length-utf_bytes prop.content h
length-value_bytes utf_8_encoded_string prop h = length-utf_bytes prop.content h
length-value_bytes utf_8_string_pair prop (h, h') = omega (
  arith,
  length-append (utf_bytes (chars_of prop.content)) (utf_bytes (chars_of prop.value)),
  length-utf_bytes prop.content h,
  length-utf_bytes prop.value h',
)

-- A sound property takes as many bytes as its size says.
length-property_bytes :
    (prop : Property) → IsSound prop → length (property_bytes prop) ≡ property_size prop
unfolding property_bytes property_size
length-property_bytes prop sound =
    rw (sound.known, property_bytes, property_size)
      (omega (arith, length-value_bytes sound.type prop sound.has_value))

length-list_bytes :
    (props : List Property) → All IsSound props → length (list_bytes props) ≡ total_size props
unfolding list_bytes total_size
length-list_bytes [] h = refl
length-list_bytes (prop ∷ props) (hp, h) = omega (
  arith,
  length-append (property_bytes prop) (list_bytes props),
  length-property_bytes prop hp,
  length-list_bytes props h,
)

-- The whole list on the wire: its length as a variable byte integer, then the properties.
unfoldable pub properties_bytes : Properties → Bytes
properties_bytes props = encode props.total ++ list_bytes (stored props)

-- `MQTTProperties_write` of a well-formed list is one `memcpy` of its length as a variable byte
-- integer and its properties in order, and the result is 1 more than this length.
pub properties_write-put :
    (props : Properties) (c : Cursor)
    → IsWf props
    → properties_write (some props) c
      ≡ (put (properties_bytes props) c >>= λ c'. done (pos (1 + props.total), c'))
unfolding properties_write properties_bytes
properties_write-put props c wf =
    let (counted, summed, all) =
      stored_facts props.array props.count props.max_count props.total wf in
    let read = entries_of-stored props.array props.count props.max_count props.total wf in
    let result : Cursor → Run (ℤ × Cursor) = λ c'. done (pos (1 + props.total), c') in
    bind_cong (put (encode props.total) c) _ _
      (λ c'. rw (read, summed) (write_entries-put (stored props) 1 1 c' all))
    ∙ put-put_bind (encode props.total) (list_bytes (stored props)) c result

-- `MQTTProperties_len` is the length of the block.
pub length-properties_bytes :
    (props : Properties)
    → IsWf props
    → props.total < 128 ^ 4
    → properties_len (some props) ≡ length (properties_bytes props)
unfolding properties_len properties_bytes encode_count
length-properties_bytes props wf small =
    let (counted, summed, all) =
      stored_facts props.array props.count props.max_count props.total wf in
    omega (
      arith,
      length-append (encode props.total) (list_bytes (stored props)),
      length-list_bytes (stored props) all,
      vbi_len-encode props.total small,
    )

-- `MQTTProperties_write` of a well-formed list with a length below 128 ^ 4 fills a buffer of
-- `MQTTProperties_len` bytes exactly.
pub properties_len-write :
    (props : Properties)
    → IsWf props
    → props.total < 128 ^ 4
    → properties_write (some props) (fresh (properties_len (some props)))
      ≡ done (pos (1 + props.total), record { written = properties_bytes props; room = 0 })
properties_len-write props wf small = rw (
  properties_write-put props (fresh (properties_len (some props))) wf,
  length-properties_bytes props wf small,
  put_exact (properties_bytes props),
)
