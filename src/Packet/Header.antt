-- ===== src/Packet/Header.antt =====
-- The bit fields of `union Header`.
use mqtt_client.Packet.{header_dup, header_qos, header_retain, header_type, make_header}
use mqtt_client.Prelude.{arith, ℕ, ◌<◌, ◌≡◌}

-- A byte of `union Header` that is assembled from fields within their widths gives these fields back.
pub make_header_fields :
    (type dup qos retain : ℕ)
    → type < 16
    → dup < 2
    → qos < 4
    → retain < 2
    → let byte = make_header type dup qos retain in
      (byte < 256)
      × (header_type byte ≡ type)
      × (header_dup byte ≡ dup)
      × (header_qos byte ≡ qos)
      × (header_retain byte ≡ retain)
unfolding make_header header_type header_dup header_qos header_retain
make_header_fields type dup qos retain ht hd hq hr = omega arith
