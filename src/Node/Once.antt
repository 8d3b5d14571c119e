-- ===== src/Node/Once.antt =====
-- Duplicate suppression in src/api/treenet.c: a frame for this node is delivered once.
use treenity.Prelude.{◌≡◌}
use treenity.Frame.{Frame}
use treenity.Dupcache
use treenity.Dupcache.{Dupcache, dup_slot}
use treenity.Node.State.{Node}

-- Nothing is handed to the application between the two states, and no partial datagram changes.
abbrev pub IsSilent : Node → Node → Type 0
IsSilent t t' =
    (t'.world.effects ≡ t.world.effects)
    × (t'.stats.datagrams_rx ≡ t.stats.datagrams_rx)
    × (t'.reasm ≡ t.reasm)
