-- ===== src/MsgId/First.antt =====
-- `MQTTProtocol_assignMsgId` before the first identifier is assigned.
use mathlib.Core.Path.{subst}
use mqtt_client.MsgId.{MsgIds, assign_loop, assign_msg_id, is_outbound, max_msg_id, next_msg_id}
use mqtt_client.MsgId.Fresh.{assigned_new, run_of}
use mqtt_client.Prelude.{
  Bool-cases, List, arith, false, inl, inr, refl, some, suc, true, zero, ℕ, ◌+◌, ◌<◌, ◌==◌, ◌∙◌,
  ◌≡◌, ◌≢◌, ◌≤◌,
}

assign_loop_end :
    (fuel start id : ℕ) (msgs : List ℕ)
    → is_outbound id msgs ≡ false
    → assign_loop fuel start id msgs ≡ some id
unfolding assign_loop
assign_loop_end zero start id msgs h = rw h
assign_loop_end (suc fuel) start id msgs h = rw h

-- From 0 the loop does not come back to its start.
assign_loop_step :
    (fuel id : ℕ) (msgs : List ℕ)
    → 1 ≤ id
    → id < max_msg_id
    → is_outbound id msgs ≡ true
    → assign_loop (suc fuel) 0 id msgs ≡ assign_loop fuel 0 (id + 1) msgs
unfolding assign_loop next_msg_id
assign_loop_step fuel id msgs lo hi h =
    let test : (id == max_msg_id) ≡ false = ground arith in
    let other : (id + 1 == 0) ≡ false = ground arith in rw (h, test, other)

assign_loop-first :
    (fuel id free : ℕ) (msgs : List ℕ)
    → 1 ≤ id
    → id ≤ free
    → free ≤ max_msg_id
    → free ≤ fuel + id
    → is_outbound free msgs ≡ false
    → (found : ℕ) × (1 ≤ found)
      × (found ≤ free)
      × (is_outbound found msgs ≡ false)
      × (assign_loop fuel 0 id msgs ≡ some found)
assign_loop-first zero id free msgs lo below hi fuelled h =
    let same : free ≡ id = omega arith in
    let unused = subst (λ i. is_outbound i msgs ≡ false) same h in
    (id, lo, below, unused, assign_loop_end zero 0 id msgs unused)
assign_loop-first (suc fuel) id free msgs lo below hi fuelled h =
    elim (Bool-cases (is_outbound id msgs)) [
      | inr unused ↦ (id, lo, below, unused, assign_loop_end (suc fuel) 0 id msgs unused)
      | inl used ↦
          let other : id ≢ free = λ e. cc (subst (λ i. is_outbound i msgs ≡ true) e used, h) in
          let (found, one, at_most, unused, run) =
            assign_loop-first fuel (id + 1) free msgs (omega arith) (omega arith) hi (omega arith)
              h in
          (found, one, at_most, unused, assign_loop_step fuel id msgs lo (omega arith) used ∙ run)
    ]

run_of_unset :
    (client : MsgIds)
    → client.msg_id ≡ 0
    → run_of client ≡ assign_loop max_msg_id 0 1 client.outbound
unfolding next_msg_id
run_of_unset client unset = rw unset refl

-- With the last identifier 0, as before the first assignment, an identifier that no outbound message
-- has is found where there is one of 1 to 65535, and it becomes the last one.
pub assign_msg_id_first :
    (client : MsgIds) (free : ℕ)
    → client.msg_id ≡ 0
    → 1 ≤ free
    → free ≤ max_msg_id
    → is_outbound free client.outbound ≡ false
    → (id : ℕ) × (1 ≤ id)
      × (id ≤ free)
      × (is_outbound id client.outbound ≡ false)
      × (assign_msg_id client ≡ some (id, record client { msg_id = id }))
unfolding assign_msg_id
assign_msg_id_first client free unset lo hi h =
    let (id, one, below, unused, run) =
      assign_loop-first max_msg_id 1 free client.outbound (omega arith) lo hi (omega arith) h in
    (id, one, below, unused, assigned_new client id one (run_of_unset client unset ∙ run))
