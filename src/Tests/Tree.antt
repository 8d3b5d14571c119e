-- ===== src/Tests/Tree.antt =====
-- An instance at concrete inputs.
use treenity.Prelude.{
  ℕ, zero, suc, ◌+◌, ◌*◌, ◌≡◌, ◌≢◌, refl, true, false, [], ◌∷◌, some, none, arith, length, take,
  find_index,
}
use treenity.Config.{mtu, rank_infinite, addr_invalid, protocol_version}
use treenity.Frame.{Frame, zero_frame, frame_decode}
use treenity.Frame.RoundTrip.{IsFrame, Same}
use treenity.Ring
use treenity.Dupcache
use treenity.Neighbor.{Neighbor, zero_neighbor}
use treenity.Node.State.{Node, Config, Port, node}
use treenity.Node.Tx.{queued, tx_submit, is_free, slot, stamped}
use treenity.Node.Beacon.{beacon_router}
use treenity.Node.Control.{is_master}
use treenity.Node.Parent.{best_candidate, select_parent}
use treenity.Node.Receive.{rx_drain}
use treenity.Node.Lifecycle.{blank, start_up, treenet_init}
use treenity.Node.Poll.{next_deadline_ms}
use treenity.Node.Candidate.{IsBest, best_candidate_lem}
use treenity.Node.Late.{NeverSuspect, select_parent-late}
use treenity.Node.Drain.{rx_drain-drained}
use treenity.Node.Deadline.{IsNotLate, next_deadline_ms-IsNotLate}
use treenity.Node.Queued.{tx_submit-decodes}

-- A node with address 5 whose modem always sends.
abbrev pub cfg : Config
cfg = record {
  addr = 5;
  role = node;
  net_id = 3;
  has_on_recv = true;
  has_on_event = true;
  reliable = true;
  radio = record { spreading_factor = 7; bandwidth_hz = 125000; coding_rate = 1 };
}

abbrev pub port : Port
port = record {
  tx_ok = λ n. true;
  now_ms = λ n. 1000 + n * 50;
  rnd = λ n. 77 + n;
  channel_free = none;
  has_timer_arm = true;
}

pub init_succeeds : treenet_init cfg port ≡ some (start_up cfg port)
unfolding treenet_init
init_succeeds = refl

rx_drain-drained_example : (Ring.pop (rx_drain (start_up cfg port)).rx mtu).1 ≡ none
rx_drain-drained_example = rx_drain-drained (start_up cfg port)

next_deadline_ms-IsNotLate_example :
    IsNotLate (start_up cfg port) 1000 (next_deadline_ms (start_up cfg port) 1000)
next_deadline_ms-IsNotLate_example = next_deadline_ms-IsNotLate (start_up cfg port) 1000

-- The router 9 at rank 16 with a link of cost 30.
abbrev router : Neighbor
router = record zero_neighbor {
  valid = true;
  addr = 9;
  rank = 16;
  flags = beacon_router;
  link_cost = 30;
  last_seen_ms = 3000000000;
}

-- The node 34 days after the start, connected to the router that it has just heard.
abbrev late : Node
late = record (blank cfg port) {
  now_ms = 3000000000;
  connected = true;
  parent = 9;
  rank = 54;
  neighbors = record { entries = router ∷ []; count = 1 };
}

best_candidate_lem_example :
    IsBest 5 3000000000 rank_infinite none (router ∷ []) (best_candidate late)
unfolding blank
best_candidate_lem_example = best_candidate_lem late

late-NeverSuspect : NeverSuspect late.neighbors
late-NeverSuspect zero = refl
late-NeverSuspect (suc i) = refl

late-role : is_master late.role ≡ false
unfolding blank
late-role = refl

select_parent-late_example :
    ((select_parent late late.now_ms).0.parent ≡ addr_invalid)
    × ((select_parent late late.now_ms).0.connected ≡ false)
select_parent-late_example =
    select_parent-late late late-NeverSuspect (omega arith) (omega arith) late-role refl

abbrev hello : Frame
hello = record zero_frame {
  version = protocol_version;
  type = 1;
  flags = 1;
  src = 5;
  dst = 9;
  seq = 77;
  net_id = 3;
  hop_limit = 8;
  payload = some (104 ∷ 105 ∷ []);
  payload_len = 2;
}

hello-IsFrame : IsFrame (stamped (blank cfg port) hello)
unfolding blank
hello-IsFrame = record {
  version = refl;
  type = omega arith;
  flags = omega arith;
  src = omega arith;
  dst = omega arith;
  seq = omega arith;
  net_id = omega arith;
  hop_limit = omega arith;
  sec = omega arith;
  prev = omega arith;
  from_node = (omega arith, omega arith, omega arith);
  bytes = refl;
}

first_free : find_index is_free (blank cfg port).tx ≡ some 0
unfolding blank
first_free = refl

first_size : length (slot (blank cfg port) 0).buf ≡ mtu
unfolding blank
first_size = refl

tx_submit-decodes_example :
    ((tx_submit (blank cfg port) hello true 9 0).1 ≡ queued)
    × ((g : Frame) × (frame_decode (
            take
              (slot (tx_submit (blank cfg port) hello true 9 0).0 0).len
              (slot (tx_submit (blank cfg port) hello true 9 0).0 0).buf)
          ≡ some g)
        × Same (stamped (blank cfg port) hello) g)
    × ((j : ℕ)
        → 0 ≢ j
        → slot (tx_submit (blank cfg port) hello true 9 0).0 j ≡ slot (blank cfg port) j)
tx_submit-decodes_example =
    tx_submit-decodes (blank cfg port) hello true 9 0 0 first_free first_size hello-IsFrame
      (omega arith)

abbrev for_me : Frame
for_me = record hello { src = 9; dst = 5; prev = 9 }
