-- ===== src/Utf8/Runs.antt =====
-- An example of the UTF-8 test.
use mqtt_client.Prelude.{[], arith, some, true, ◌↔◌, ◌∷◌, ◌≡◌}
use mqtt_client.Utf8.{validate}
use mqtt_client.Utf8.Strings.{IsUtf8, validate_iff}

-- A euro sign and the letter A, with a signed `char`.
validate_iff_example :
    (validate true (some (0xE2 ∷ 0x82 ∷ 0xAC ∷ 65 ∷ [])) ≡ true)
    ↔ IsUtf8 (0xE2 ∷ 0x82 ∷ 0xAC ∷ 65 ∷ [])
validate_iff_example = validate_iff true (0xE2 ∷ 0x82 ∷ 0xAC ∷ 65 ∷ []) (ground arith)
