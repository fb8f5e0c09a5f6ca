-- ===== src/Wire.antt =====
-- The reading and writing of single fields in MQTTPacket.c: `readChar`, `readInt`, `readUTFlen`,
-- `writeChar`, `writeInt`, `writeInt4`, `writeUTF`, `writeData` and `writeMQTTLenString`.
pub mod Writing
pub mod RoundTrip
pub mod Int4
use mqtt_client.Prelude.{
  Bool, Option, [], drop, if◌then◌else◌, leb, length, ltb, none, some, take, ℕ, ◌%◌, ◌&&◌, ◌*◌,
  ◌++◌, ◌+◌, ◌-◌, ◌/◌, ◌==◌, ◌∷◌,
}
use mqtt_client.Prelude.Int.{quot, rem, to_char, ℤ}
use mqtt_client.Prelude.Predicates.{Bytes}
use mqtt_client.Prelude.Run.{Run, done, fault, ◌>>=◌}

-- A place within an allocated buffer: the bytes written so far, and how many fit behind them.
pub record Cursor : Type 0 where
  pub written : Bytes
  pub room : ℕ

-- A buffer fresh from `malloc`.
abbrev pub fresh : ℕ → Cursor
fresh n = record { written = []; room = n }

-- `memcpy` to the place, which moves on behind the bytes. Past the end of the buffer is a fault.
unfoldable pub put : Bytes → Cursor → Run Cursor
put bs c =
    if leb (length bs) c.room
    then done (record { written = c.written ++ bs; room = c.room - length bs })
    else fault

pub write_char : ℕ → Cursor → Run Cursor
write_char b c = put (b ∷ []) c

pub write_int : ℕ → Cursor → Run Cursor
write_int n c = do c ← write_char (n / 256 % 256) c; write_char (n % 256) c

pub write_int4 : ℤ → Cursor → Run Cursor
write_int4 n c = do
  c ← write_char (to_char (quot n 16777216)) c
  let n = rem n 16777216
  c ← write_char (to_char (quot n 65536)) c
  let n = rem n 65536
  c ← write_char (to_char (quot n 256)) c
  write_char (to_char (rem n 256)) c

-- `string` is what stands before the terminating zero.
pub write_utf : Bytes → Cursor → Run Cursor
write_utf string c = do c ← write_int (length string) c; put string c

pub write_data : Bytes → Cursor → Run Cursor
write_data block c = do c ← write_int (length block) c; put block c

-- `MQTTLenString`; `none` stands for `NULL`.
pub record LenString : Type 0 where
  pub len : ℕ
  pub chars : Option Bytes

-- The bytes that a `memcpy` of `len` bytes from `chars` reads.
unfoldable pub copy_from : LenString → Run Bytes
copy_from s = if s.len == 0 then done [] else elim s.chars [
  | none ↦ fault
  | some bs ↦ if leb s.len (length bs) then done (take s.len bs) else fault
]

pub write_len_string : LenString → Cursor → Run Cursor
write_len_string s c = do c ← write_int s.len c; bs ← copy_from s; put bs c

-- `*pptr` is what lies between the place and the end of the data. A read past the end is a fault.
unfoldable pub read_char : Bytes → Run (ℕ × Bytes)
read_char [] = fault
read_char (b ∷ rest) = done (b, rest)

unfoldable pub read_int : Bytes → Run (ℕ × Bytes)
read_int [] = fault
read_int (a ∷ []) = fault
read_int (a ∷ b ∷ rest) = done (256 * a + b, rest)

-- `allocated` says whether `malloc` succeeds. The result is the string or `NULL`, `*len` and
-- `*pptr`.
unfoldable pub read_utf_len :
    (allocated : Bool) → (len : ℕ) → Bytes → Run (Option Bytes × ℕ × Bytes)
unfolding read_int
read_utf_len allocated len rest =
    if ltb 1 (length rest)
    then (do
      (len, rest) ← read_int rest
      if leb len (length rest) && allocated
          then (do
            string ← copy_from (record { len = len; chars = some rest })
            done (some string, len, drop len rest))
          else done (none, len, rest))
    else done (none, len, rest)
