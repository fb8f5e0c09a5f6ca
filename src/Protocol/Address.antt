-- ===== src/Protocol/Address.antt =====
-- src/MQTTProtocol.c: `MQTTStrncpy`, `MQTTStrdup` and `MQTTProtocol_addressPort`. A C string is the
-- list of its characters before the terminating zero, and a pointer into it an index. `atoi` of the
-- standard library is a parameter.
-- The block of `dest_size` bytes behind `dest`, after the copy; what was not written stays. When the
-- string ends before the block does, the loop has stepped over its zero.
use mathlib.Core.Option
use mqtt_client.Entries.{some-injective}
use mqtt_client.Prelude.{
  Bool, Option, [], arith, drop, false, get_elem?, if◌then◌else◌, length, ltb, none, refl, some,
  suc, true, ℕ, ◌++◌, ◌+◌, ◌-◌, ◌<◌, ◌==◌, ◌∙◌, ◌∷◌, ◌≡◌,
}
use mqtt_client.Prelude.Int.{ℤ}
use mqtt_client.Prelude.Predicates.{Bytes}
use mqtt_client.Prelude.Run.{Run, done, fault, ◌>>=◌}
use mqtt_client.Wire.{fresh}

strncpy_loop : (count : ℕ) → (src dest : Bytes) → Run Bytes
strncpy_loop count src [] = fault
strncpy_loop count [] (d ∷ dest) =
    if ltb 1 count
    then (elim dest [ [] ↦ fault | e ∷ rest ↦ done (0 ∷ 0 ∷ rest) ])
    else done (0 ∷ dest)
strncpy_loop count (c ∷ src) (d ∷ dest) =
    let rest = strncpy_loop (count - 1) src dest in
    if ltb 1 count then (rest >>= λ out. done (c ∷ out)) else done (0 ∷ dest)

unfoldable pub mqtt_strncpy : (dest src : Bytes) (dest_size : ℕ) → Run Bytes
unfolding strncpy_loop
mqtt_strncpy dest src dest_size = strncpy_loop dest_size src dest

-- `fresh` is the new block of `strlen(src) + 1` bytes.
unfoldable pub mqtt_strdup : (fresh : Option Bytes) (src : Bytes) → Run (Option Bytes)
unfolding mqtt_strncpy
mqtt_strdup none src = done none
mqtt_strdup (some fresh) src = mqtt_strncpy fresh src (length src + 1) >>= λ copy. done (some copy)

strncpy_loop_exact :
    (n : ℕ) (src dest : Bytes)
    → n ≡ length src + 1
    → length dest ≡ n
    → strncpy_loop n src dest ≡ done (src ++ 0 ∷ [])
unfolding strncpy_loop
strncpy_loop_exact n src [] e e' = absurd (omega arith)
strncpy_loop_exact n [] (d ∷ []) e e' = rw e refl
strncpy_loop_exact n [] (d ∷ d' ∷ ds) e e' = absurd (omega arith)
strncpy_loop_exact n (c ∷ src) (d ∷ dest) e e' =
    let more : ltb 1 n ≡ true = ground arith in
    rw (strncpy_loop_exact (n - 1) src dest (omega arith) (omega arith), more) refl

-- The copy of a string into a block of its own length and one byte is the string with its zero.
pub mqtt_strdup_lem :
    (fresh src : Bytes)
    → length fresh ≡ length src + 1
    → mqtt_strdup (some fresh) src ≡ done (some (src ++ 0 ∷ []))
unfolding mqtt_strdup mqtt_strncpy
mqtt_strdup_lem fresh src e = rw (strncpy_loop_exact (length src + 1) src fresh refl e) refl

-- `strrchr` and `strchr`.
unfoldable pub last_index : ℕ → Bytes → Option ℕ
last_index c [] = none
last_index c (x ∷ xs) = elim (last_index c xs) [
  | some i ↦ some (suc i)
  | none ↦ if x == c then some 0 else none
]

unfoldable pub first_index : ℕ → Bytes → Option ℕ
first_index c [] = none
first_index c (x ∷ xs) = if x == c then some 0 else Option.map suc (first_index c xs)

abbrev pub colon : ℕ
colon = 58

abbrev pub slash : ℕ
slash = 47

abbrev pub bracket_open : ℕ
bracket_open = 91

abbrev pub bracket_close : ℕ
bracket_close = 93

-- Whether the pointer is below the one that `strrchr` gives; `NULL` is below every other.
unfoldable pub below : Option ℕ → Option ℕ → Bool
below p none = false
below none (some j) = true
below (some i) (some j) = ltb i j

-- The colon in front of the port; one within an IPv6 address is none.
unfoldable pub port_colon : Bytes → Option ℕ
unfolding last_index below
port_colon uri =
    let pos = last_index colon uri in
    if (elim uri [ [] ↦ false | c ∷ _ ↦ c == bracket_open ])
    then if below pos (last_index bracket_close uri) then none else pos
    else pos

-- The length without a closing bracket at the end, given the last byte. The byte in front of the
-- string is outside it.
unfoldable pub without_bracket : ℕ → Option ℕ → Run ℕ
without_bracket len none = fault
without_bracket len (some c) = done (if c == bracket_close then len - 1 else len)

unfoldable pub strip_bracket : Bytes → ℕ → Run ℕ
unfolding without_bracket
strip_bracket uri len = if len == 0 then fault else without_bracket len (get_elem? uri (len - 1))

module _ (atoi : Bytes → ℤ) where
  -- The length, the port and, if there is one, the place of the topic.
  unfoldable pub address_at : Bytes → (default_port : ℤ) → Option ℕ → Run (ℕ × ℤ × Option ℕ)
  unfolding first_index strip_bracket
  address_at uri default_port (some i) = strip_bracket uri i >>= λ len.
      done (len, atoi (drop (suc i) uri), Option.map (λ j. i + j) (first_index slash (drop i uri)))
  address_at uri default_port none =
      let topic = first_index slash uri in
      strip_bracket uri (elim topic [ none ↦ length uri | some j ↦ j ]) >>= λ len.
      done (len, default_port, topic)

  unfoldable pub address_port : Bytes → (default_port : ℤ) → Run (ℕ × ℤ × Option ℕ)
  unfolding port_colon address_at
  address_port uri default_port = address_at uri default_port (port_colon uri)

last_index-append :
    (c : ℕ) (xs ys : Bytes)
    → last_index c (xs ++ ys)
      ≡ elim (last_index c ys) [ none ↦ last_index c xs | some i ↦ some (length xs + i) ]
unfolding last_index
last_index-append c [] ys = ground arith
last_index-append c (x ∷ xs) ys = ground (arith, last_index-append c xs ys)

last_index-below : (c : ℕ) (xs : Bytes) (i : ℕ) → last_index c xs ≡ some i → i < length xs
unfolding last_index
last_index-below c [] i e = absurd (ground arith)
last_index-below c (x ∷ xs) i e = step (last_index c xs) (last_index-below c xs) e
  where
    step :
        (o : Option ℕ)
        → ((j : ℕ) → o ≡ some j → j < length xs)
        → elim o [ some j ↦ some (suc j) | none ↦ (if x == c then some 0 else none) ] ≡ some i
        → i < suc (length xs)
    step none ih h = ground arith
    step (some j) ih h =
        let le = ih j refl in let same : suc j ≡ i = some-injective h in omega arith

not_below : (c : ℕ) (xs : Bytes) → below (some (length xs)) (last_index c xs) ≡ false
unfolding below
not_below c xs = step (last_index c xs) (last_index-below c xs)
  where
    step :
        (o : Option ℕ) → ((j : ℕ) → o ≡ some j → j < length xs) → below (some (length xs)) o ≡ false
    step none ih = refl
    step (some j) ih = let le = ih j refl in ground arith

-- The last character of a string that begins with `x`.
unfoldable pub last_char : ℕ → Bytes → ℕ
last_char x [] = x
last_char x (y ∷ ys) = last_char y ys

last_char-get :
    (x : ℕ) (xs ys : Bytes) → get_elem? (x ∷ xs ++ ys) (length xs) ≡ some (last_char x xs)
unfolding last_char
last_char-get x [] ys = refl
last_char-get x (y ∷ xs) ys = last_char-get y xs ys

drop-length : (xs ys : Bytes) → drop (length xs) (xs ++ ys) ≡ ys
drop-length [] ys = refl
drop-length (x ∷ xs) ys = drop-length xs ys

drop-behind : (xs : Bytes) (c : ℕ) (ys : Bytes) → drop (suc (length xs)) (xs ++ c ∷ ys) ≡ ys
drop-behind [] c ys = refl
drop-behind (x ∷ xs) c ys = drop-behind xs c ys

module _ (atoi : Bytes → ℤ) (default_port : ℤ) (x : ℕ) (xs port : Bytes)
    (no_colon : last_index colon port ≡ none)
    (no_bracket : last_index bracket_close port ≡ none) where
  abbrev host : Bytes
  host = x ∷ xs

  abbrev uri : Bytes
  uri = host ++ colon ∷ port

  colon-found : last_index colon uri ≡ some (length host)
  unfolding last_index
  colon-found = last_index-append colon host (colon ∷ port) ∙ rw no_colon (ground arith)

  bracket-before : below (some (length host)) (last_index bracket_close uri) ≡ false
  unfolding below last_index
  bracket-before =
      let same : last_index bracket_close uri ≡ last_index bracket_close host =
        last_index-append bracket_close host (colon ∷ port) ∙ rw no_bracket (ground arith) in
      rw same (not_below bracket_close host)

  port_colon_lem : port_colon uri ≡ some (length host)
  unfolding port_colon
  port_colon_lem = rw (colon-found, bracket-before) (ground arith)

  stripped :
      strip_bracket uri (length host)
      ≡ done (if last_char x xs == bracket_close then length xs else length host)
  unfolding strip_bracket without_bracket
  stripped =
      let index : length host - 1 ≡ length xs = omega arith in
      let nonempty : (length host == 0) ≡ false = ground arith in
      rw (strip_bracket, nonempty, index, last_char-get x xs (colon ∷ port)) (rw index refl)

  -- An address with a port, whose text has no colon and no bracket: the host is what stands in front
  -- of the last colon, without a closing bracket at its end, also where it is an IPv6 address with
  -- colons of its own, and the port is the number behind it.
  pub address_port_lem :
      address_port atoi uri default_port
      ≡ done (
        if last_char x xs == bracket_close then length xs else length host,
        atoi port,
        Option.map (λ j. length host + j) (first_index slash (colon ∷ port)),
      )
  unfolding address_port address_at strip_bracket without_bracket
  address_port_lem =
      rw (port_colon_lem, stripped, drop-length xs (colon ∷ port), drop-behind xs colon port) refl
