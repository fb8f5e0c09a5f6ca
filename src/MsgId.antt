-- ===== src/MsgId.antt =====
-- The message identifiers of MQTTProtocol.c: `MQTTProtocol_assignMsgId`.
pub mod Fresh
pub mod First
mod Runs
use mathlib.Core.Option
use mqtt_client.Prelude.{
  Bool, List, Option, [], false, if◌then◌else◌, none, some, suc, true, zero, ℕ, ◌+◌, ◌==◌, ◌∷◌,
}

abbrev pub max_msg_id : ℕ
max_msg_id = 65535

-- The members of `Clients` that are used: `msgID`, and the identifiers of `outboundMsgs` in order.
pub record MsgIds : Type 0 where
  pub msg_id : ℕ
  pub outbound : List ℕ

-- `ListFindItem` with `messageIDCompare` finds the identifier.
pub is_outbound : ℕ → List ℕ → Bool
is_outbound id [] = false
is_outbound id (used ∷ msgs) = if used == id then true else is_outbound id msgs

unfoldable pub next_msg_id : ℕ → ℕ
next_msg_id id = if id == max_msg_id then 1 else id + 1

-- The loop, with fuel; 0 is the answer that there is none.
pub assign_loop : (fuel : ℕ) → (start id : ℕ) → List ℕ → Option ℕ
assign_loop zero start id msgs = if is_outbound id msgs then none else some id
assign_loop (suc fuel) start id msgs =
    let next = next_msg_id id in
    let rest = assign_loop fuel start next msgs in
    if is_outbound id msgs then (if next == start then some 0 else rest) else some id

-- The result and the client afterwards; `none` is a loop that does not end.
pub assign_msg_id : MsgIds → Option (ℕ × MsgIds)
assign_msg_id client =
    Option.map (λ id. (id, if id == 0 then client else record client { msg_id = id }))
      (assign_loop max_msg_id client.msg_id (next_msg_id client.msg_id) client.outbound)
