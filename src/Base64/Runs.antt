-- ===== src/Base64/Runs.antt =====
-- Examples of Base64.
use mqtt_client.Base64.{base64_decode, base64_encode, terminated}
use mqtt_client.Base64.RoundTrip.{base64_decode-encode}
use mqtt_client.Prelude.{[], arith, length, true, ◌*◌, ◌+◌, ◌/◌, ◌∷◌, ◌≡◌}
use mqtt_client.Prelude.Predicates.{Bytes}
use mqtt_client.Prelude.Run.{done}

abbrev four_bytes : Bytes
four_bytes = 0 ∷ 255 ∷ 128 ∷ 7 ∷ []

base64_decode-encode_example :
    (text : Bytes) × (base64_encode 20 four_bytes ≡ (terminated 20 text, length text))
    × (length text ≡ (4 + 2) / 3 * 4)
    × (base64_decode true 4 text ≡ done (terminated 4 four_bytes, 4))
base64_decode-encode_example =
    base64_decode-encode true 20 4 four_bytes (ground arith) (omega arith) (omega arith)
