-- ===== src/Tests/Fragments.antt =====
-- A datagram of two fragments that arrive in the wrong order, one of them twice.
use treenity.Prelude.{
  ℕ, zero, suc, ◌+◌, ◌<◌, ◌≡◌, refl, true, false, List, [], ◌∷◌, none, some, arith, replicate,
  find_index,
}
use treenity.Prelude.Int.{pos, negsuc}
use treenity.Node.State.{Node, Config, Port, node}
use treenity.Node.Lifecycle.{blank}
use treenity.Node.Reasm.{belongs, free_reasm, reasm_input}
use treenity.Node.Capacity.{frag_count}
use treenity.Node.Send.{frag_frame}
use treenity.Node.Assemble.{seen}
use treenity.Node.Whole.{IsFragment, frag_frame-IsFragment}
use treenity.Node.Order.{Arrival, covers, feed, reasm_input-reassembles}

abbrev cfg_of : ℕ → Config
cfg_of addr = record {
  addr = addr;
  role = node;
  net_id = 3;
  has_on_recv = true;
  has_on_event = false;
  reliable = true;
  radio = record { spreading_factor = 9; bandwidth_hz = 125000; coding_rate = 1 };
}

abbrev port : Port
port = record {
  tx_ok = λ n. true;
  now_ms = λ n. 1000;
  rnd = λ n. 7;
  channel_free = none;
  has_timer_arm = false;
}

abbrev sender : Node
sender = blank (cfg_of 9) port

abbrev receiver : Node
receiver = blank (cfg_of 5) port

abbrev letter : List ℕ
letter = replicate 200 7

-- Fragment `i` of datagram 21, as the sender makes it.
abbrev arrival : ℕ → Arrival
arrival i = record {
  index = i;
  frame = frag_frame sender false true 5 (21 + i) letter 21 (frag_count letter) i;
  rssi = negsuc 80;
  snr = pos 3;
  now = 1000;
}

arrival-IsFragment : (i : ℕ) → i < 2 → IsFragment letter sender.addr 21 (arrival i).frame i
arrival-IsFragment i lt = frag_frame-IsFragment sender false true 5 (21 + i) letter 21 i lt

unseen : find_index (belongs sender.addr 21) receiver.reasm ≡ none
unfolding blank
unseen = refl

free : find_index free_reasm receiver.reasm ≡ some 0
unfolding blank
free = refl

both_there :
    (j : ℕ) → j < frag_count letter → covers (arrival 0 ∷ arrival 1 ∷ arrival 1 ∷ []) j ≡ true
both_there zero lt = refl
both_there (suc zero) lt = refl
both_there (suc (suc j)) lt = absurd (omega (arith, lt))

reasm_input-reassembles_example :
    ((feed (arrival 1 ∷ arrival 1 ∷ []) receiver).world ≡ receiver.world)
    × ((reasm_input
          (feed (arrival 1 ∷ arrival 1 ∷ []) receiver)
          (arrival 0).frame
          (arrival 0).rssi
          (arrival 0).snr
          (arrival 0).now).world.effects
        ≡ seen receiver (arrival 0).frame letter (arrival 0).rssi (arrival 0).snr)
reasm_input-reassembles_example =
    reasm_input-reassembles letter sender.addr 21 0 receiver (arrival 1 ∷ arrival 1 ∷ [])
      (arrival 0) (omega arith) (omega arith) unseen free
      (arrival-IsFragment 1 (omega arith), (arrival-IsFragment 1 (omega arith), tt))
      (arrival-IsFragment 0 (omega arith)) refl both_there
