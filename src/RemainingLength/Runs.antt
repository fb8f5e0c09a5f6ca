-- ===== src/RemainingLength/Runs.antt =====
-- Examples of variable byte integers on a transport of test data.
use mqtt_client.Prelude.{[], arith, length, refl, ◌++◌, ◌<◌, ◌^◌, ◌∷◌, ◌≡◌, ◌≤◌}
use mqtt_client.Prelude.Int.{pos}
use mqtt_client.Prelude.Predicates.{Bytes}
use mqtt_client.RemainingLength.{decode, encode, encode_count, vbi_len}
use mqtt_client.RemainingLength.Encode.{encode-groups, groups, vbi_len-encode}
use mqtt_client.RemainingLength.Reading.{IsVbi, decode_sound, vbi_value}
use mqtt_client.RemainingLength.RoundTrip.{decode-encode}
use mqtt_client.Transport.{tcpsocket_complete}
use mqtt_client.Transport.Delivery.{Delivers}
use mqtt_client.Transport.Stream.{Stream, incoming_stream, read_to, stream_transport}

-- 321 as a variable byte integer, from the protocol's documentation.
encode_321 : encode 321 ≡ 193 ∷ 2 ∷ []
unfolding groups
encode_321 = encode-groups 3 321 (omega arith)

abbrev before : Stream
before = incoming_stream (193 ∷ 2 ∷ 7 ∷ [])

abbrev after : Stream
after = read_to (7 ∷ []) 2

Delivers-321 : Delivers stream_transport before (193 ∷ 2 ∷ []) after
Delivers-321 = (read_to (2 ∷ 7 ∷ []) 1, refl, (after, refl, refl))

decode-encode_example : decode stream_transport before ≡ (tcpsocket_complete, 321, after)
decode-encode_example =
    decode-encode stream_transport 321 before after (omega arith) (rw encode_321 Delivers-321)

vbi_len-encode_example : encode_count 321 ≡ vbi_len (pos 321)
vbi_len-encode_example = vbi_len-encode 321 (omega arith)

decode_sound_example :
    (bs : Bytes) × Delivers stream_transport before bs after
    × IsVbi bs
    × (length bs ≤ 4)
    × (321 ≡ vbi_value bs)
    × (321 < 128 ^ 4)
decode_sound_example = decode_sound stream_transport 321 before after decode-encode_example

abbrev overlong : Bytes
overlong = 128 ∷ 129 ∷ 130 ∷ 255 ∷ []

Delivers-overlong :
    Delivers stream_transport (incoming_stream (overlong ++ 1 ∷ [])) overlong (read_to (1 ∷ []) 4)
Delivers-overlong = (
  read_to (129 ∷ 130 ∷ 255 ∷ 1 ∷ []) 1,
  refl,
  (
    read_to (130 ∷ 255 ∷ 1 ∷ []) 2,
    refl,
    (read_to (255 ∷ 1 ∷ []) 3, refl, (read_to (1 ∷ []) 4, refl, refl)),
  ),
)
