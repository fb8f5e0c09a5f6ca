-- ===== src/MsgId/Runs.antt =====
-- Examples of message identifiers.
use mqtt_client.MsgId.{MsgIds, assign_msg_id, is_outbound, max_msg_id}
use mqtt_client.MsgId.First.{assign_msg_id_first}
use mqtt_client.MsgId.Fresh.{assign_msg_id_fresh}
use mqtt_client.Prelude.{[], arith, false, refl, some, true, ℕ, ◌∷◌, ◌≡◌, ◌≢◌, ◌≤◌, ◌⊎◌}

assign_msg_id_fresh_example :
    let client : MsgIds = record { msg_id = 65535; outbound = 1 ∷ 65535 ∷ [] } in
    (id : ℕ) × (client' : MsgIds) × (assign_msg_id client ≡ some (id, client'))
    × (((1 ≤ id)
          × (id ≤ max_msg_id)
          × (is_outbound id (1 ∷ 65535 ∷ []) ≡ false)
          × (client'.msg_id ≡ id)
          × (client'.outbound ≡ 1 ∷ 65535 ∷ []))
        ⊎ ((id ≡ 0)
            × (client' ≡ client)
            × ((used : ℕ)
                → 1 ≤ used
                → used ≤ max_msg_id
                → used ≢ 65535
                → is_outbound used (1 ∷ 65535 ∷ []) ≡ true)))
assign_msg_id_fresh_example =
    assign_msg_id_fresh (record { msg_id = 65535; outbound = 1 ∷ 65535 ∷ [] }) (omega arith)
      (omega arith)

assign_msg_id_first_example :
    (id : ℕ) × (1 ≤ id)
    × (id ≤ 3)
    × (is_outbound id (1 ∷ 2 ∷ []) ≡ false)
    × (assign_msg_id (record { msg_id = 0; outbound = 1 ∷ 2 ∷ [] })
        ≡ some (id, record { msg_id = id; outbound = 1 ∷ 2 ∷ [] }))
unfolding is_outbound
assign_msg_id_first_example =
    assign_msg_id_first (record { msg_id = 0; outbound = 1 ∷ 2 ∷ [] }) 3 refl (omega arith)
      (omega arith) refl
