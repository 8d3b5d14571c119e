-- ===== src/Node/Event.antt =====
-- The event queue of src/api/treenet.c: tn_emit_event and tn_events_flush.
use treenity.Prelude.{
  ℕ, zero, suc, ◌+◌, ◌-◌, ◌%◌, not, leb, ltb, if◌then◌else◌, get_or, set, replicate,
}
use treenity.Prelude.Word.{u8}
use treenity.Config.{event_queue_size}
use treenity.Node.State.{Event, network_ready, EventArg, null, event, EventQueue, Node, note}

unfoldable pub empty_queue : EventQueue
empty_queue = record {
  ev = replicate event_queue_size network_ready;
  arg = replicate event_queue_size null;
  head = 0;
  tail = 0;
  count = 0;
}

-- A full queue first loses its oldest event.
unfoldable pub make_room : EventQueue → EventQueue
make_room q =
    if leb event_queue_size q.count
    then record q { head = u8 ((q.head + 1) % event_queue_size); count = q.count - 1 }
    else q

unfoldable pub enqueue : EventQueue → Event → EventArg → EventQueue
unfolding make_room
enqueue q ev arg =
    let r = make_room q in
    record r {
      ev = set r.ev r.tail ev;
      arg = set r.arg r.tail arg;
      tail = u8 ((r.tail + 1) % event_queue_size);
      count = u8 (r.count + 1);
    }

unfoldable pub emit_event : Node → Event → EventArg → Node
unfolding enqueue
emit_event t ev arg = record t { events = enqueue t.events ev arg }

-- `while (count > 0)` with the count as fuel: each round lowers it by one.
unfoldable pub flush_loop : ℕ → Node → Node
flush_loop zero t = t
flush_loop (suc fuel) t =
    let q = t.events in
    let next = record t {
      events = record q { head = u8 ((q.head + 1) % event_queue_size); count = q.count - 1 };
    } in
    let rest =
      flush_loop fuel
        (note (event (get_or q.ev q.head network_ready) (get_or q.arg q.head null)) next) in
    if ltb 0 q.count then rest else t

unfoldable pub events_flush : Node → Node
unfolding flush_loop
events_flush t =
    if not t.cfg.has_on_event
    then record t { events = record t.events { head = 0; tail = 0; count = 0 } }
    else flush_loop t.events.count t
