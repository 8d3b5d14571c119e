-- ===== src/Node/Relay/Handlers.antt =====
-- What a frame that comes in makes a node send: tn_handle_data and tn_handle_flood of src/api/treenet.c.
use treenity.Prelude.{ℕ, ◌<◌, ◌≡◌, false}
use treenity.Prelude.Int.{ℤ}
use treenity.Dupcache
use treenity.Frame.{Frame}
use treenity.Node.State.{Node}
use treenity.Node.Beacon.{is_leaf}
use treenity.Node.Intact.Data.{Heard}
use treenity.Node.Intact.{IsIntact}

module _ (t : Node) (f : Frame) (rssi snr : ℤ) (now j : ℕ) (v : IsIntact t) (h : Heard t f) where
  abbrev marked : Node
  marked = record t { dup = Dupcache.mark t.dup f.src f.seq now }

  -- What lets the frame be passed on.
  record MayRelay : Type 0 where
    fresh : Dupcache.check t.dup f.src f.seq now ≡ false
    router : is_leaf t.role ≡ false
    hops : 1 < f.hop_limit
