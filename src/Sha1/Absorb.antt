-- ===== src/Sha1/Absorb.antt =====
-- `SHA1_Update` is the same as taking in one byte after the other.
use Prim.Native.Nat.{min}
use mathlib.Core.List.{append_assoc}
use mqtt_client.Prelude.{
  [], ap, arith, drop, false, length, length-append, length-drop, length-take, refl, suc, sym, take,
  take-append-drop, zero, ℕ, ◌++◌, ◌+◌, ◌-◌, ◌<◌, ◌==◌, ◌∙◌, ◌∷◌, ◌≡◌, ◌≤◌,
}
use mqtt_client.Prelude.Predicates.{Bytes}
use mqtt_client.Sha1.{ShaCtx, fill, flush, sha1_update, sha1_update_loop, w32}

-- One byte: the reference for `SHA1_Update`.
unfoldable pub absorb : ShaCtx → ℕ → ShaCtx
absorb ctx b =
    flush (record { h = ctx.h; buffer = ctx.buffer ++ b ∷ []; total = w32 (ctx.total + 1) })

unfoldable pub absorb_all : ShaCtx → Bytes → ShaCtx
absorb_all ctx [] = ctx
absorb_all ctx (b ∷ cur) = absorb_all (absorb ctx b) cur

pub absorb_all-append :
    (ctx : ShaCtx) (xs ys : Bytes) → absorb_all ctx (xs ++ ys) ≡ absorb_all (absorb_all ctx xs) ys
unfolding absorb_all
absorb_all-append ctx [] ys = refl
absorb_all-append ctx (x ∷ xs) ys = absorb_all-append (absorb ctx x) xs ys

w32-w32 : (t m : ℕ) → w32 (w32 (t + 1) + m) ≡ w32 (t + suc m)
unfolding w32
w32-w32 t m = omega arith

absorb_open :
    (ctx : ShaCtx) (b : ℕ)
    → length ctx.buffer + 1 < 64
    → absorb ctx b
      ≡ record { h = ctx.h; buffer = ctx.buffer ++ b ∷ []; total = w32 (ctx.total + 1) }
unfolding absorb flush
absorb_open ctx b h =
    let test : (length (ctx.buffer ++ b ∷ []) == 64) ≡ false =
      ground (arith, length-append ctx.buffer (b ∷ [])) in
    rw test

-- Bytes that do not go beyond the end of the buffer.
pub absorb_all-fill :
    (ctx : ShaCtx) (xs : Bytes)
    → 1 ≤ length xs
    → length ctx.buffer + length xs ≤ 64
    → absorb_all ctx xs
      ≡ flush (record { h = ctx.h; buffer = ctx.buffer ++ xs; total = w32 (ctx.total + length xs) })
unfolding absorb_all absorb
absorb_all-fill ctx [] lo h = absurd (omega arith)
absorb_all-fill ctx (x ∷ []) lo h = refl
absorb_all-fill ctx (x ∷ y ∷ xs) lo h =
    let next : ShaCtx = record {
      h = ctx.h;
      buffer = ctx.buffer ++ x ∷ [];
      total = w32 (ctx.total + 1);
    } in
    let sized = length-append ctx.buffer (x ∷ []) in
    ap (λ c. absorb_all c (y ∷ xs)) (absorb_open ctx x (omega arith))
    ∙ absorb_all-fill next (y ∷ xs) (omega arith) (omega arith)
    ∙ rw (append_assoc ctx.buffer (x ∷ []) (y ∷ xs), w32-w32 ctx.total (length (y ∷ xs)))

-- A context between two calls: there is room in the buffer.
abbrev pub IsOpen : ShaCtx → Type 0
IsOpen ctx = length ctx.buffer < 64

pub flush-IsOpen : (ctx : ShaCtx) → length ctx.buffer ≤ 64 → IsOpen (flush ctx)
unfolding flush
flush-IsOpen ctx h = ground arith

fill-absorb_all :
    (n : ℕ) (cur : Bytes) (ctx : ShaCtx)
    → 1 ≤ n
    → n ≤ length cur
    → length ctx.buffer + n ≤ 64
    → fill n cur ctx ≡ absorb_all ctx (take n cur)
unfolding fill
fill-absorb_all n cur ctx lo fits room =
    let sized : length (take n cur) ≡ n = omega (arith, length-take n cur) in
    sym (absorb_all-fill ctx (take n cur) (omega arith) (omega arith) ∙ rw sized)

fill-IsOpen :
    (n : ℕ) (cur : Bytes) (ctx : ShaCtx) → length ctx.buffer + n ≤ 64 → IsOpen (fill n cur ctx)
unfolding fill
fill-IsOpen n cur ctx h =
    flush-IsOpen _ (omega (arith, length-append ctx.buffer (take n cur), length-take n cur))

update_loop-absorb_all :
    (fuel : ℕ) (ctx : ShaCtx) (cur : Bytes)
    → IsOpen ctx
    → length cur ≤ fuel
    → sha1_update_loop fuel ctx cur ≡ absorb_all ctx cur
unfolding sha1_update_loop absorb_all
update_loop-absorb_all fuel ctx [] room fuelled = refl
update_loop-absorb_all zero ctx (b ∷ cur) room fuelled = absurd (omega arith)
update_loop-absorb_all (suc fuel) ctx (b ∷ cur) room fuelled =
    let n = min (64 - length ctx.buffer) (length (b ∷ cur)) in
    update_loop-absorb_all fuel (fill n (b ∷ cur) ctx) (drop n (b ∷ cur))
      (fill-IsOpen n (b ∷ cur) ctx (omega arith)) (omega (arith, length-drop n (b ∷ cur)))
    ∙ ap (λ c. absorb_all c (drop n (b ∷ cur)))
        (fill-absorb_all n (b ∷ cur) ctx (omega arith) (omega arith) (omega arith))
    ∙ sym (absorb_all-append ctx (take n (b ∷ cur)) (drop n (b ∷ cur)))
    ∙ ap (absorb_all ctx) (take-append-drop n (b ∷ cur))

-- `SHA1_Update` with any number of bytes does the same as taking in the bytes one by one and
-- processing the buffer whenever it is full, if the buffer is not full before.
pub sha1_update-absorb_all :
    (ctx : ShaCtx) (cur : Bytes) → IsOpen ctx → sha1_update ctx cur ≡ absorb_all ctx cur
unfolding sha1_update
sha1_update-absorb_all ctx cur room = update_loop-absorb_all (length cur) ctx cur room (omega arith)
