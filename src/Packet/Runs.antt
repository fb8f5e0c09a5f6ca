-- ===== src/Packet/Runs.antt =====
-- Examples of packets that are read and sent.
use mqtt_client.Packet.{header_qos, publish, suback}
use mqtt_client.Packet.Accepted.{publish_sound}
use mqtt_client.Packet.Acks.{suback-fault_iff, suback_codes}
use mqtt_client.Packet.Receive.{publish-ne-fault, publish-publish_bytes, publish_bytes, received}
use mqtt_client.Prelude.{
  Bool, [], arith, length, refl, some, true, ℕ, ◌++◌, ◌<◌, ◌↔◌, ◌∷◌, ◌≡◌, ◌≢◌,
}
use mqtt_client.Prelude.Predicates.{Bytes}
use mqtt_client.Prelude.Run.{done, fault}
use mqtt_client.Wire.Writing.{int_bytes, utf_bytes}

abbrev allocates : ℕ → Bool
allocates k = true

-- A PUBLISH packet of quality of service 1 with topic "ab", identifier 7 and payload 5 6 7.
abbrev topic : Bytes
topic = 97 ∷ 98 ∷ []

abbrev payload : Bytes
payload = 5 ∷ 6 ∷ 7 ∷ []

abbrev publish_data : Bytes
publish_data = 0 ∷ 2 ∷ 97 ∷ 98 ∷ 0 ∷ 7 ∷ 5 ∷ 6 ∷ 7 ∷ []

data_eq : publish_bytes (header_qos 50) topic 7 payload ≡ publish_data
unfolding publish_bytes header_qos utf_bytes int_bytes
data_eq = refl

publish-ne-fault_example : publish allocates 4 50 (0 ∷ 9 ∷ 97 ∷ []) ≢ fault
publish-ne-fault_example = publish-ne-fault allocates 4 50 (0 ∷ 9 ∷ 97 ∷ [])

publish_sound_example :
    (topic' : Bytes) × (id : ℕ) × (payload' : Bytes) × (length topic' < 65536)
    × (id < 65536)
    × (publish_bytes (header_qos 50) topic 7 payload
        ≡ publish_bytes (header_qos 50) topic' id payload')
    × (received 4 50 topic 7 payload ≡ received 4 50 topic' id payload')
publish_sound_example =
    publish_sound allocates 4 50 (publish_bytes (header_qos 50) topic 7 payload)
      (received 4 50 topic 7 payload) (rw data_eq (ground arith))
      (publish-publish_bytes allocates 4 50 7 topic payload refl refl (omega arith) (omega arith))

suback_codes_example :
    suback allocates true 4 144 (int_bytes 7 ++ 1 ∷ 128 ∷ [])
    ≡ done (some (record { header = 144; msg_id = 7; mqtt_version = 4; qoss = 1 ∷ 128 ∷ [] }))
suback_codes_example = suback_codes allocates true 4 144 7 1 (128 ∷ []) (λ k. refl) (omega arith)

suback-fault_iff_example :
    (suback allocates true 4 144 (0 ∷ 7 ∷ []) ≡ fault) ↔ ((◌≡◌ {A = ℕ} 2 2) × (true ≡ true))
suback-fault_iff_example = suback-fault_iff allocates true 4 144 (0 ∷ 7 ∷ []) (λ k. refl)
