-- ===== src/Wire/Writing.antt =====
-- Each writer is a `memcpy` of the field's encoding: it writes these bytes where they fit, and is a
-- fault where they do not.
use mathlib.Core.List.{append-nil, append_assoc}
use mqtt_client.Prelude.{
  [], ap, arith, length, length-append, refl, some, take, ℕ, ◌%◌, ◌++◌, ◌-◌, ◌/◌, ◌∷◌, ◌≡◌, ◌≤◌,
}
use mqtt_client.Prelude.Predicates.{Bytes}
use mqtt_client.Prelude.Run.{Run, done, ◌>>=◌}
use mqtt_client.Wire.{
  Cursor, LenString, copy_from, fresh, put, write_char, write_data, write_int, write_len_string,
  write_utf,
}

-- One `memcpy` behind another is a `memcpy` of both blocks.
pub put-put : (front back : Bytes) (c : Cursor) → (put front c >>= put back) ≡ put (front ++ back) c
unfolding put
put-put front back c = ground (arith, length-append front back, append_assoc c.written front back)

pub put-put_bind :
    {A : Type 0} (front back : Bytes) (c : Cursor) (k : Cursor → Run A)
    → (put front c >>= λ c'. put back c' >>= k) ≡ (put (front ++ back) c >>= k)
unfolding put
put-put_bind front back c k =
    ground (arith, length-append front back, append_assoc c.written front back)

pub put-nil : (c : Cursor) → put [] c ≡ done c
unfolding put
put-nil c = ground (arith, append-nil c.written)

-- A `memcpy` that fits.
pub put_fits :
    (bs : Bytes) (c : Cursor)
    → length bs ≤ c.room
    → put bs c ≡ done (record { written = c.written ++ bs; room = c.room - length bs })
unfolding put
put_fits bs c h = ground arith

-- The two bytes of a length or a message identifier, high byte first.
unfoldable pub int_bytes : ℕ → Bytes
int_bytes n = n / 256 % 256 ∷ n % 256 ∷ []

pub write_char-put : (b : ℕ) (c : Cursor) → write_char b c ≡ put (b ∷ []) c
unfolding write_char
write_char-put b c = refl

pub write_int-put : (n : ℕ) (c : Cursor) → write_int n c ≡ put (int_bytes n) c
unfolding write_int write_char int_bytes
write_int-put n c = put-put (n / 256 % 256 ∷ []) (n % 256 ∷ []) c

-- `writeUTF` writes the length in two bytes and the characters.
unfoldable pub utf_bytes : Bytes → Bytes
utf_bytes s = int_bytes (length s) ++ s

pub write_utf-put : (s : Bytes) (c : Cursor) → write_utf s c ≡ put (utf_bytes s) c
unfolding write_utf utf_bytes
write_utf-put s c = rw write_int-put (put-put (int_bytes (length s)) s c)

pub write_data-put : (s : Bytes) (c : Cursor) → write_data s c ≡ put (utf_bytes s) c
unfolding write_data utf_bytes
write_data-put s c = rw write_int-put (put-put (int_bytes (length s)) s c)

-- A string whose pointer leads to its `len` bytes.
pub record IsReadable (s : LenString) (bs : Bytes) : Type 0 where
  pub holds : s.chars ≡ some bs
  pub sized : s.len ≡ length bs

take-length : (bs : Bytes) → take (length bs) bs ≡ bs
take-length [] = refl
take-length (b ∷ bs) = ap (λ r. b ∷ r) (take-length bs)

pub copy_from-IsReadable : (s : LenString) (bs : Bytes) → IsReadable s bs → copy_from s ≡ done bs
unfolding copy_from
copy_from-IsReadable s [] r = rw (r.holds, r.sized)
copy_from-IsReadable s (b ∷ bs) r = rw (r.holds, r.sized, take-length bs) (ground arith)

pub write_len_string-put :
    (s : LenString) (bs : Bytes) (c : Cursor)
    → IsReadable s bs
    → write_len_string s c ≡ put (utf_bytes bs) c
unfolding write_len_string utf_bytes
write_len_string-put s bs c r =
    rw (write_int-put, copy_from-IsReadable s bs r, r.sized) (put-put (int_bytes (length bs)) bs c)

-- A block fills a buffer of its own length exactly.
pub put_exact : (bs : Bytes) → put bs (fresh (length bs)) ≡ done (record { written = bs; room = 0 })
unfolding put
put_exact bs = ground arith

-- A sequence of writers becomes one `memcpy`.
pub ruleset writers =
    (append_assoc, write_utf-put, write_char-put, write_int-put, put-put, put-put_bind)
