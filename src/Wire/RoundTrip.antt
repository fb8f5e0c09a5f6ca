-- ===== src/Wire/RoundTrip.antt =====
-- What a writer of MQTTPacket.c has written, the reader of the same field reads back.
use mqtt_client.Prelude.{
  [], ap, arith, drop, false, leb, length, length-append, ltb, refl, some, suc, take, true, zero, ℕ,
  ◌%◌, ◌*◌, ◌++◌, ◌+◌, ◌-◌, ◌/◌, ◌<◌, ◌==◌, ◌∙◌, ◌∷◌, ◌≡◌, ◌≤◌,
}
use mqtt_client.Prelude.Predicates.{Bytes}
use mqtt_client.Prelude.Run.{done}
use mqtt_client.Wire.{Cursor, copy_from, read_int, read_utf_len, write_int}
use mqtt_client.Wire.Writing.{int_bytes, put_fits, utf_bytes, write_int-put}

-- `readInt` reads the number that `writeInt` wrote, and leaves what follows.
pub read_int-int_bytes :
    (n : ℕ) (rest : Bytes) → n < 65536 → read_int (int_bytes n ++ rest) ≡ done (n, rest)
unfolding read_int int_bytes
read_int-int_bytes n rest h = ap (λ k. done (k, rest)) (omega arith)

-- Where two bytes fit, `writeInt` of a number below 65536 appends two bytes, and `readInt` reads the
-- number from them and leaves what follows.
pub read_int-write_int :
    (n : ℕ) (c : Cursor) (rest : Bytes)
    → n < 65536
    → 2 ≤ c.room
    → (c' : Cursor) × (write_int n c ≡ done c')
      × (c'.room + 2 ≡ c.room)
      × (new : Bytes) × (c'.written ≡ c.written ++ new)
      × (read_int (new ++ rest) ≡ done (n, rest))
read_int-write_int n c rest h fits = (
  record { written = c.written ++ int_bytes n; room = c.room - 2 },
  write_int-put n c ∙ unfold int_bytes in put_fits (int_bytes n) c fits,
  omega arith,
  int_bytes n,
  refl,
  read_int-int_bytes n rest h,
)

pub take-append : (xs ys : Bytes) → take (length xs) (xs ++ ys) ≡ xs
take-append [] ys = refl
take-append (x ∷ xs) ys = ap (λ r. x ∷ r) (take-append xs ys)

drop-append : (xs ys : Bytes) → drop (length xs) (xs ++ ys) ≡ ys
drop-append [] ys = refl
drop-append (x ∷ xs) ys = drop-append xs ys

-- A `memcpy` that stays within its source.
pub copy_from_lem :
    (len : ℕ) (bytes : Bytes)
    → len ≤ length bytes
    → copy_from (record { len = len; chars = some bytes }) ≡ done (take len bytes)
unfolding copy_from
copy_from_lem zero bytes h = refl
copy_from_lem (suc len) bytes h =
    let nonzero : (suc len == 0) ≡ false = ground arith in
    let within : leb (suc len) (length bytes) ≡ true = ground arith in rw (nonzero, within) refl

-- Given memory, `readUTFlen` reads the string of less than 65536 bytes that `writeUTF` or `writeData`
-- wrote, with its length, and leaves what follows.
pub read_utf_len-utf_bytes :
    (string rest : Bytes) (len : ℕ)
    → length string < 65536
    → read_utf_len true len (utf_bytes string ++ rest) ≡ done (some string, length string, rest)
unfolding read_utf_len read_int utf_bytes int_bytes
read_utf_len-utf_bytes string rest len h = rw (
  long,
  same,
  fits,
  copy_from_lem (length string) (string ++ rest) (omega (arith, length-append string rest)),
  take-append string rest,
  drop-append string rest,
)
  where
    long : ltb 1 (suc (suc (length (string ++ rest)))) ≡ true
    long = ground arith

    same : 256 * (length string / 256 % 256) + length string % 256 ≡ length string
    same = omega arith

    fits : leb (length string) (length (string ++ rest)) ≡ true
    fits = ground (arith, length-append string rest)

-- Two bytes are the encoding of the number that `readInt` makes of them.
pub int_bytes-eq : (a b : ℕ) → a < 256 → b < 256 → int_bytes (256 * a + b) ≡ a ∷ b ∷ []
unfolding int_bytes
int_bytes-eq a b ha hb =
    let high : (256 * a + b) / 256 % 256 ≡ a = omega arith in
    let low : (256 * a + b) % 256 ≡ b = omega arith in rw (high, low)
