-- ===== src/Transport/Delivery.antt =====
-- The bytes that a transport hands out, one `WebSocket_getch` after the other.
use mqtt_client.Prelude.{[], ◌∷◌, ◌≡◌}
use mqtt_client.Prelude.Predicates.{Bytes}
use mqtt_client.Transport.{Transport, tcpsocket_complete}

-- From state `s` the next bytes are `bs`, each read completely, and `s'` is the state behind them.
abbrev pub Delivers : {S : Type 0} → Transport S → S → Bytes → S → Type 0
Delivers t s [] s' = s ≡ s'
Delivers {S} t s (b ∷ bs) s' =
    (s₁ : S) × (t.getch s ≡ (tcpsocket_complete, b, s₁)) × Delivers t s₁ bs s'
