-- ===== src/Memory/Returns.antt =====
-- Total correctness of a command: defined behaviour, enough fuel, and a condition on its result.
use mqtt_client.Memory.{Cmd, Heap, Outcome, returned, then_run}

-- The run has come back, with a result and a memory that meet `Post`.
pub data Returns {A : Type 0} (Post : A → Heap → Type 0) : Outcome A → Type 0 where
  returns : {result : A} {after : Heap} → Post result after → Returns Post (returned result after)

pub bind :
    {A B : Type 0} {Mid : A → Heap → Type 0} {Post : B → Heap → Type 0} {first : Outcome A}
    {rest : A → Cmd B}
    → Returns Mid first
    → ((x : A) (g : Heap) → Mid x g → Returns Post (rest x g))
    → Returns Post (then_run first rest)
bind (returns met) go_on = go_on _ _ met

pub mono :
    {A : Type 0} {Mid Post : A → Heap → Type 0} {first : Outcome A}
    → Returns Mid first
    → ((x : A) (g : Heap) → Mid x g → Post x g)
    → Returns Post first
mono (returns met) enough = returns (enough _ _ met)
