-- ===== src/Tests/Orders.antt =====
-- Calls and steps in a concrete order.
use treenity.Prelude.{
  false, ◌≤◌, ◌<◌, ◌≢◌, ◌⊎◌, true, some, ℕ, ◌≡◌, refl, ◌++◌, List, [], ◌∷◌, arith, replicate,
  length-replicate, is_some,
}
use treenity.Prelude.Int.{pos, negsuc}
use treenity.Config.{rx_ring_bytes}
use treenity.Ring.{Ringbuf, init, push}
use treenity.Ring.Queue.{Record, IsRecord}
use treenity.Ring.Refine.{Holds, init-Holds, push_refines}
use treenity.Ring.Alone.{alone_refines}
use treenity.Config.{max_fragments}
use treenity.Node.Capacity.{frag_count}
use treenity.Node.Send.{sent, send_fragmented}
use treenity.Node.Tx.{tx_free_slots}
use treenity.Node.Relay.Fragments.{AreInSlots, send_fragmented-whole}
use treenity.Ring.Queue
use treenity.Ring.Steps.{Turn, producer, consumer, turns, at_rest, push_alone, pop_alone}
use treenity.Ring.Race.{turns-fifo, first_of}
use treenity.Node.Lifecycle.{start_up}
use treenity.Node.Poll.{treenet_rx, treenet_poll}
use treenity.Node.Send.{treenet_send}
use treenity.Node.Life.{IsSound, start, receive, poll, send, Life-IsSound}
use treenity.Config.{addr_broadcast}
use treenity.Util.{get_u32}
use treenity.Frame.{Frame, dao_decode, zero_frame, frame_encode, flag_want_ack}
use treenity.Node.Tx.{tx_submit}
use treenity.Node.Control.{frame_flood, frame_dao, probe_send}
use treenity.Node.Relay.Advert.{Advertised, dao_handle-Advertised}
use treenity.Node.Dao.{dao_handle}
use treenity.Node.State.{Node}
use treenity.Node.Intact.{IsIntact}
use treenity.Node.Intact.Change.{IsIntact-parent}
use treenity.Node.Intact.Data.{Heard}
use treenity.Node.Intact.Calls.{treenet_init-IsIntact}
use treenity.Tests.Tree.{cfg, port, init_succeeds}

-- A frame comes in, the node polls, and its application sends to the master.
Life-IsSound_example :
    IsSound
      (treenet_send
        (treenet_poll (treenet_rx (start_up cfg port) (1 ∷ 2 ∷ 3 ∷ []) (negsuc 80) (pos 5)).0)
        1
        (104 ∷ 105 ∷ [])).0
Life-IsSound_example = Life-IsSound cfg (omega arith) (omega arith) (
    send
      (poll (
        receive (start port (start_up cfg port) init_succeeds) (1 ∷ 2 ∷ 3 ∷ []) (negsuc 80) (pos 5)
          (omega arith) (omega arith) (omega arith)))
      1 (104 ∷ 105 ∷ []) (omega arith))

abbrev first : Record
first = (record { len = 2; rssi_dbm = negsuc 80; snr_db = pos 5 }, 7 ∷ 8 ∷ [])

abbrev second : Record
second = (record { len = 1; rssi_dbm = negsuc 90; snr_db = negsuc 3 }, 9 ∷ [])

-- The second push runs while the first record is taken out.
abbrev schedule : List Turn
schedule =
    producer first
    ∷ producer first
    ∷ producer first
    ∷ producer first
    ∷ consumer
    ∷ producer second
    ∷ consumer
    ∷ producer second
    ∷ consumer
    ∷ producer second
    ∷ consumer
    ∷ producer second
    ∷ consumer
    ∷ consumer
    ∷ []

turns-fifo_example :
    (q : List Record) × Holds
      (turns 200 (at_rest (init (replicate 1024 0) rx_ring_bytes)) schedule).rb
      q
    × ((turns 200 (at_rest (init (replicate 1024 0) rx_ring_bytes)) schedule).accepted
        ≡ (turns 200 (at_rest (init (replicate 1024 0) rx_ring_bytes)) schedule).delivered ++ q)
turns-fifo_example =
    turns-fifo 200 schedule (replicate 1024 0) (length-replicate {A = ℕ} 1024 0) (omega arith)

first-IsRecord : IsRecord first
first-IsRecord = record { len = omega arith; bytes = refl; rssi = omega arith; snr = omega arith }

abbrev started : Ringbuf
started = init (replicate 1024 0) rx_ring_bytes

-- The ring with one record in it.
abbrev one_in : Ringbuf
one_in = (push started first.0 first.1).0

one_in-Holds : Holds one_in (Queue.push [] first).0
one_in-Holds =
    (push_refines first.0 first.1 (init-Holds (replicate 1024 0) (length-replicate {A = ℕ} 1024 0))
      first-IsRecord).0

alone_refines_example :
    (Holds (push_alone one_in first).rb (Queue.push (Queue.push [] first).0 first).0
      × (is_some (first_of (push_alone one_in first).accepted)
          ≡ (Queue.push (Queue.push [] first).0 first).1))
    × (Holds (pop_alone 200 one_in).rb (Queue.pop (Queue.push [] first).0 200).0
        × (first_of (pop_alone 200 one_in).delivered ≡ (Queue.pop (Queue.push [] first).0 200).1))
alone_refines_example = alone_refines 200 first one_in-Holds first-IsRecord

started-IsIntact : IsIntact (start_up cfg port)
started-IsIntact =
    treenet_init-IsIntact cfg port (start_up cfg port) (omega arith) (omega arith) init_succeeds

-- A datagram of 400 bytes in three fragments.
send_fragmented-whole_example :
    let sent_off = send_fragmented (start_up cfg port) false true 9 9 (replicate 400 7) in
    ((frag_count (replicate 400 7) ≤ max_fragments)
      × (frag_count (replicate 400 7) ≤ tx_free_slots (start_up cfg port))
      × (sent_off.1 ≡ sent)
      × AreInSlots (start_up cfg port) sent_off.0 false true 9 (replicate 400 7))
    ⊎ (((max_fragments < frag_count (replicate 400 7))
          ⊎ (tx_free_slots (start_up cfg port) < frag_count (replicate 400 7)))
        × (sent_off.1 ≢ sent)
        × (sent_off.0 ≡ start_up cfg port))
send_fragmented-whole_example =
    send_fragmented-whole (start_up cfg port) false true 9 9 (replicate 400 7) started-IsIntact
      (omega arith, omega arith)

-- A frame of another node for another node, with five hops left.
abbrev passing : Frame
passing = record zero_frame {
  version = 1;
  type = frame_flood;
  src = 7;
  dst = addr_broadcast;
  seq = 3;
  net_id = cfg.net_id;
  hop_limit = 5;
  prev = 8;
}

-- An instance with node 6 as its parent.
abbrev child : Node
child = record (start_up cfg port) { parent = 6 }

child-IsIntact : IsIntact child
child-IsIntact = IsIntact-parent (start_up cfg port) 6 started-IsIntact (omega arith)

-- Node 9 is reached by way of node 8.
abbrev advert : Frame
advert = record zero_frame {
  version = 1;
  type = frame_dao;
  flags = flag_want_ack;
  src = 9;
  dst = cfg.addr;
  seq = 3;
  net_id = cfg.net_id;
  hop_limit = 5;
  prev = 8;
  payload = some (9 ∷ 0 ∷ 0 ∷ 0 ∷ 1 ∷ []);
  payload_len = 5;
}

advert-Heard : Heard child advert
unfolding start_up probe_send tx_submit frame_encode
advert-Heard = record {
  frame = record {
    version = refl;
    type = omega arith;
    flags = omega arith;
    src = omega arith;
    dst = omega arith;
    seq = omega arith;
    net_id = omega arith;
    hop_limit = omega arith;
    sec = omega arith;
    prev = omega arith;
    from_node = (omega arith, omega arith, omega arith);
    bytes = refl;
  };
  network = refl;
  content = λ p e. ground (arith, e);
}

advert_ok : (dao_handle child advert 1000).1 ≡ true
unfolding dao_handle dao_decode get_u32 start_up probe_send tx_submit frame_encode
advert_ok = refl

dao_handle-Advertised_example : Advertised child advert 1000 (dao_handle child advert 1000).0
dao_handle-Advertised_example =
    dao_handle-Advertised child advert 1000 child-IsIntact advert-Heard (omega arith) advert_ok
