-- ===== src/Trading/Broadcaster/Delivery.antt =====
-- Who receives a message.
use spawn_backend.Prelude.{ℕ, Bool, not, ltb, ◌&&◌, if◌then◌else◌, List, [], ◌∷◌, Option}
use spawn_backend.Trading.Broadcaster.{Message, Client, is_addressed}

-- The client takes the message: it is addressed and open, and no more than a million bytes wait.
unfoldable pub takes : Option ℕ → Client → Bool
takes only c = is_addressed only c && c.is_open && not (ltb 1_000_000 c.buffered_amount)

-- The client is cut off: it is addressed and open, and more than eight million bytes wait.
unfoldable pub is_stalled : Option ℕ → Client → Bool
is_stalled only c = is_addressed only c && c.is_open && ltb 8_000_000 c.buffered_amount

unfoldable pub deliveries : Message → Option ℕ → List Client → List (ℕ × Message)
deliveries message only [] = []
deliveries message only (c ∷ cs) =
    let rest = deliveries message only cs in if takes only c then (c.id, message) ∷ rest else rest

unfoldable pub not_stalled : Option ℕ → List Client → List Client
not_stalled only [] = []
not_stalled only (c ∷ cs) =
    let rest = not_stalled only cs in if is_stalled only c then rest else c ∷ rest
