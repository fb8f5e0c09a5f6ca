-- ===== src/Sha1/Runs.antt =====
-- Examples of the SHA-1 hash.
use mqtt_client.Prelude.{[], arith, length, refl, ◌%◌, ◌∷◌, ◌≡◌}
use mqtt_client.Prelude.Predicates.{Bytes}
use mqtt_client.Sha1.{
  digest, fill, flush, pad_amount, process_block, sha1_final, sha1_init, sha1_update, total_bits,
  w32, word_bytes,
}
use mqtt_client.Sha1.Absorb.{absorb_all, sha1_update-absorb_all}
use mqtt_client.Sha1.Padding.{padded_message, sha1_final-padded_message}

abbrev abc : Bytes
abc = 97 ∷ 98 ∷ 99 ∷ []

-- The digest of "abc" in the standard.
abc_digest :
    sha1_final (sha1_update sha1_init abc)
    ≡ 0xA9 ∷ 0x99 ∷ 0x3E ∷ 0x36 ∷ 0x47 ∷ 0x06 ∷ 0x81 ∷ 0x6A ∷ 0xBA ∷ 0x3E ∷ 0x25 ∷ 0x71 ∷ 0x78
      ∷ 0x50 ∷ 0xC2 ∷ 0x6C ∷ 0x9C ∷ 0xD0 ∷ 0xD8 ∷ 0x9D ∷ []
unfolding sha1_final sha1_update process_block total_bits digest word_bytes pad_amount w32 fill
    flush
abc_digest = refl

sha1_update-absorb_all_example : sha1_update sha1_init abc ≡ absorb_all sha1_init abc
sha1_update-absorb_all_example = sha1_update-absorb_all sha1_init abc (omega arith)

sha1_final-padded_message_example :
    (sha1_final (sha1_update sha1_init abc) ≡ digest (absorb_all sha1_init (padded_message abc)).h)
    × (length (padded_message abc) % 64 ≡ 0)
sha1_final-padded_message_example = sha1_final-padded_message abc (omega arith)
