-- ===== src/Frame/Runs.antt =====
-- An example of a frame.
use mqtt_client.Frame.{
  build_frame, frame_mask, is_new_mask, masked_len, start_bytes, unmask_data, xor_bytes,
}
use mqtt_client.Frame.Masking.{build_frame-unmask_data}
use mqtt_client.Packet.{no_mask}
use mqtt_client.Packet.Send.{total_length}
use mqtt_client.Packet.Send.Frames.{joined}
use mqtt_client.Prelude.{[], arith, false, refl, some, true, ◌++◌, ◌+◌, ◌^◌, ◌∷◌, ◌≡◌}
use mqtt_client.Prelude.Predicates.{Bytes}
use mqtt_client.Prelude.Run.{done}
use mqtt_client.Transport.{PacketBuffers}

abbrev bufs : PacketBuffers
bufs = record { buffers = (1 ∷ 2 ∷ []) ∷ (3 ∷ []) ∷ []; frees = true ∷ false ∷ []; mask = no_mask }

abbrev mask : Bytes
mask = frame_mask (λ k. k + 7) bufs

build_frame-unmask_data_example :
    (body : Bytes) × (bufs' : PacketBuffers) × (build_frame true (λ k. k + 7) 2 (48 ∷ 3 ∷ []) bufs
      ≡ done (some (start_bytes 2 128 5 ++ mask ++ body), bufs'))
    × (xor_bytes mask 0 (body ++ joined bufs'.buffers) ≡ (48 ∷ 3 ∷ []) ++ joined bufs.buffers)
    × ((unmask_data 2 bufs').buffers ≡ bufs.buffers)
unfolding total_length is_new_mask
build_frame-unmask_data_example =
    build_frame-unmask_data (λ k. k + 7) 2 (48 ∷ 3 ∷ []) bufs refl (ground arith) (ground arith)
      (omega arith) (omega arith)

-- Of a first buffer of 2 ^ 31 bytes, nothing is masked.
unmasked : masked_len 14 (2 ^ 31) ≡ 0
unfolding masked_len
unmasked = refl
