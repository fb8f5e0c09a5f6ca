-- ===== src/MsgId/Fresh.antt =====
-- `MQTTProtocol_assignMsgId` answers with an identifier that is not in use.
use mathlib.Core.Path.{subst}
use mqtt_client.MsgId.{MsgIds, assign_loop, assign_msg_id, is_outbound, max_msg_id, next_msg_id}
use mqtt_client.Prelude.{
  Bool-cases, List, Option, ap, arith, false, if◌then◌else◌, inl, inr, leb, refl, some, suc, true,
  zero, ℕ, ◌+◌, ◌-◌, ◌<◌, ◌==◌, ◌||◌, ◌∙◌, ◌≡◌, ◌≢◌, ◌≤◌, ◌⊎◌,
}
use native.Mathlib.Decide.{dec_lt}

-- The identifier `k` steps behind `start`.
unfoldable behind : (start k : ℕ) → ℕ
behind start k = if leb (start + k) max_msg_id then start + k else start + k - max_msg_id

next-behind :
    (start k : ℕ)
    → 1 ≤ start
    → start ≤ max_msg_id
    → k < max_msg_id
    → next_msg_id (behind start k) ≡ behind start (k + 1)
unfolding next_msg_id behind
next-behind start k lo hi h = ground arith

behind-eq_start :
    (start k : ℕ)
    → 1 ≤ start
    → start ≤ max_msg_id
    → k ≤ max_msg_id
    → (behind start k == start) ≡ (k == 0 || k == max_msg_id)
unfolding behind
behind-eq_start start k lo hi h = ground arith

-- What the loop has found out: a free identifier, or that none is free but perhaps the first one.
abbrev Found : (start id : ℕ) → List ℕ → Type 0
Found start id msgs =
    ((1 ≤ id) × (id ≤ max_msg_id) × (is_outbound id msgs ≡ false))
    ⊎ ((id ≡ 0)
        × ((used : ℕ) → 1 ≤ used → used ≤ max_msg_id → used ≢ start → is_outbound used msgs ≡ true))

all_used :
    (start : ℕ) (msgs : List ℕ)
    → 1 ≤ start
    → start ≤ max_msg_id
    → ((j : ℕ) → 1 ≤ j → j < max_msg_id → is_outbound (behind start j) msgs ≡ true)
    → (used : ℕ) → 1 ≤ used
    → used ≤ max_msg_id
    → used ≢ start
    → is_outbound used msgs ≡ true
unfolding behind
all_used start msgs lo hi h used lo' hi' other = elim (dec_lt start used) [
  | yes later ↦
      let at : behind start (used - start) ≡ used = ground arith in
      subst (λ id. is_outbound id msgs ≡ true) at (h (used - start) (omega arith) (omega arith))
  | no earlier ↦
      let at : behind start (used + max_msg_id - start) ≡ used = ground arith in
      subst (λ id. is_outbound id msgs ≡ true) at
        (h (used + max_msg_id - start) (omega arith) (omega arith))
]

behind-range :
    (start k : ℕ)
    → 1 ≤ start
    → start ≤ max_msg_id
    → k ≤ max_msg_id
    → (1 ≤ behind start k) × (behind start k ≤ max_msg_id)
unfolding behind
behind-range start k lo hi h = ground arith

-- One more identifier is known to be in use.
one_more :
    (start k : ℕ) (msgs : List ℕ)
    → ((j : ℕ) → 1 ≤ j → j < k → is_outbound (behind start j) msgs ≡ true)
    → is_outbound (behind start k) msgs ≡ true
    → (j : ℕ) → 1 ≤ j
    → j < k + 1
    → is_outbound (behind start j) msgs ≡ true
one_more start k msgs h now j lo below = elim (dec_lt j k) [
  | yes before ↦ h j lo before
  | no last ↦
      let same : k ≡ j = omega arith in
      subst (λ i. is_outbound (behind start i) msgs ≡ true) same now
]

assign_loop-Found :
    (fuel start k : ℕ) (msgs : List ℕ)
    → 1 ≤ start
    → start ≤ max_msg_id
    → 1 ≤ k
    → k < max_msg_id
    → max_msg_id ≤ fuel + k
    → ((j : ℕ) → 1 ≤ j → j < k → is_outbound (behind start j) msgs ≡ true)
    → (id : ℕ) × (assign_loop fuel start (behind start k) msgs ≡ some id) × Found start id msgs
unfolding assign_loop
assign_loop-Found zero start k msgs lo hi lo' hi' fuelled h = absurd (omega arith)
assign_loop-Found (suc fuel) start k msgs lo hi lo' hi' fuelled h =
    let id = behind start k in
    elim (Bool-cases (is_outbound id msgs)) [
      | inr free ↦
          let (at_least, at_most) = behind-range start k lo hi (omega arith) in
          (id, rw free, inl (at_least, at_most, free))
      | inl used ↦
          let next = next-behind start k lo hi hi' in
          let more = one_more start k msgs h used in
          elim (dec_lt (k + 1) max_msg_id) [
            | yes on ↦
                let other : (behind start (k + 1) == start) ≡ false =
                  behind-eq_start start (k + 1) lo hi (omega arith) ∙ ground arith in
                let (id', rest, found) =
                  assign_loop-Found fuel start (k + 1) msgs lo hi (omega arith) on (omega arith)
                    more in
                (id', rw (used, next, other) rest, found)
            | no round ↦
                let back : (behind start (k + 1) == start) ≡ true =
                  behind-eq_start start (k + 1) lo hi (omega arith) ∙ ground arith in
                (
                  0,
                  rw (used, next, back),
                  inr (refl, all_used start msgs lo hi (λ j one below. more j one (omega arith))),
                )
          ]
    ]

-- The loop of a call.
abbrev pub run_of : MsgIds → Option ℕ
run_of client = assign_loop max_msg_id client.msg_id (next_msg_id client.msg_id) client.outbound

pub assigned_new :
    (client : MsgIds) (id : ℕ)
    → 1 ≤ id
    → run_of client ≡ some id
    → assign_msg_id client ≡ some (id, record client { msg_id = id })
unfolding assign_msg_id
assigned_new client id lo run = let test : (id == 0) ≡ false = ground arith in rw (run, test)

assigned_none :
    (client : MsgIds) (id : ℕ)
    → id ≡ 0
    → run_of client ≡ some id
    → assign_msg_id client ≡ some (id, client)
unfolding assign_msg_id
assigned_none client id z run = let test : (id == 0) ≡ true = ground arith in rw (run, test)

-- If the last identifier is one of 1 to 65535, then `MQTTProtocol_assignMsgId` ends. Its result is an
-- identifier of this range that no outbound message has, and it becomes the last one; or it is 0, all
-- identifiers but perhaps the last one are in use, and the client is as before.
pub assign_msg_id_fresh :
    (client : MsgIds)
    → 1 ≤ client.msg_id
    → client.msg_id ≤ max_msg_id
    → (id : ℕ) × (client' : MsgIds) × (assign_msg_id client ≡ some (id, client'))
      × (((1 ≤ id)
            × (id ≤ max_msg_id)
            × (is_outbound id client.outbound ≡ false)
            × (client'.msg_id ≡ id)
            × (client'.outbound ≡ client.outbound))
          ⊎ ((id ≡ 0)
              × (client' ≡ client)
              × ((used : ℕ)
                  → 1 ≤ used
                  → used ≤ max_msg_id
                  → used ≢ client.msg_id
                  → is_outbound used client.outbound ≡ true)))
unfolding assign_msg_id
assign_msg_id_fresh client lo hi =
    let start = client.msg_id in
    let first : next_msg_id start ≡ behind start 1 = unfold next_msg_id behind in ground arith in
    let (id, run, found) =
      assign_loop-Found max_msg_id start 1 client.outbound lo hi (omega arith) (omega arith)
        (omega arith) (λ j one below. absurd (omega arith)) in
    elim found [
      | inl (at_least, at_most, free) ↦ (
        id,
        record client { msg_id = id },
        assigned_new client id at_least
            (ap (λ i. assign_loop max_msg_id start i client.outbound) first ∙ run),
        inl (at_least, at_most, free, refl, refl),
      )
      | inr (zero_id, used) ↦ (
        id,
        client,
        assigned_none client id zero_id
            (ap (λ i. assign_loop max_msg_id start i client.outbound) first ∙ run),
        inr (zero_id, refl, used),
      )
    ]
