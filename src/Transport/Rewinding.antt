-- ===== src/Transport/Rewinding.antt =====
-- The frame position of utils/WebSocket.c, as an interrupted read of a packet relies on it.
-- More bytes have come behind those that were there.
use mathlib.Core.List.{append-nil, append_assoc}
use mqtt_client.Prelude.{[], ap, length, some, sym, ℕ, ◌++◌, ◌<◌, ◌∙◌, ◌≡◌, ◌≤◌}
use mqtt_client.Prelude.Predicates.{Bytes}
use mqtt_client.Transport.{Transport}

abbrev pub Extends : Bytes → Bytes → Type 0
Extends xs ys = (more : Bytes) × (ys ≡ xs ++ more)

pub Extends-refl : (xs : Bytes) → Extends xs xs
Extends-refl xs = ([], sym (append-nil xs))

pub Extends_trans : (xs ys zs : Bytes) → Extends xs ys → Extends ys zs → Extends xs zs
Extends_trans xs ys zs (more, e) (more', e') =
    (more ++ more', e' ∙ ap (λ (bs : Bytes). bs ++ more') e ∙ append_assoc xs more more')

-- `content` is what has come of the frame that is read. A read only adds to it, unless it reads all that
-- it asks for, and the position within it can be sought.
pub record Rewinds {S : Type 0} (t : Transport S) (content : S → Bytes) : Type 0 where
  pub frame_pos_within : (s : S) → t.frame_pos s ≤ length (content s)
  pub getch-Extends : (s : S) → Extends (content s) (content (t.getch s).2)
  pub getdata-Extends :
      (n : ℕ) (s : S) (bytes : Bytes)
      → (t.getdata n s).0 ≡ some bytes
      → length bytes < n
      → Extends (content s) (content (t.getdata n s).1)
  pub frame_pos-frame_pos_seek_to :
      (place : ℕ) (s : S)
      → place ≤ length (content s)
      → t.frame_pos (t.frame_pos_seek_to place s) ≡ place
  pub content-frame_pos_seek_to :
      (place : ℕ) (s : S) → content (t.frame_pos_seek_to place s) ≡ content s
