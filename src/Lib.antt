-- ===== src/Lib.antt =====
-- treenity: a mesh network library for LoRa nodes, in C.
--
-- An instance (`struct treenet` in src/core/internal.h) joins a tree that is rooted at a master. It
-- hears beacons and probes, estimates the links to its neighbours, selects a parent, advertises
-- itself towards the root, and passes on datagrams hop by hop with acknowledgements, or by managed
-- flooding. All of it happens in treenet_poll, except that treenet_rx, called from the radio's
-- interrupt, copies a frame into a ring buffer.
--
-- The modules and the code they model:
--   Config      include/treenet/config.h (default values) and the sentinels of types.h
--   Util        src/core/util.h: wrap-safe time, byte order, link scores
--   Timer       src/core/timer.c
--   Ewma        src/core/ewma.h
--   Ring        src/core/ringbuf.c; Ring.Queue is what the ring promises, and Ring.Refine and
--               Ring.Pop show that it keeps the promise. Ring.Steps has the two calls in the steps
--               that can interleave
--   Frame       src/mac/frame.c; Frame.Crc is the checksum
--   Dupcache    src/mac/dupcache.c
--   Airtime     src/mac/airtime.c
--   Scan        the search for a table slot that neighbor.c and routing.c both make
--   Neighbor    src/link/neighbor.c
--   Routes      the route table of src/routing/routing.c
--   Node        one instance. Node.State has the state, and what is outside of it: the port and the
--               effects. Node.Event, Node.Tx, Node.TxPoll, Node.Ack, Node.Reasm, Node.Receive,
--               Node.Lifecycle, Node.Poll and Node.Send are src/api/treenet.c; Node.Beacon is
--               src/link/beacon.c; Node.Parent and Node.Dao are src/routing/routing.c, and
--               Node.Control has the other control frames; Node.Inspect has what an application can
--               ask. Node.Life has every instance that calls can lead to; the remaining modules of
--               Node are proofs.
--   Sim         sim/sim.c: instances over a shared radio channel in virtual time. Sim.State has the
--               simulator, Sim.Callbacks the port and the callbacks that it gives to an instance,
--               Sim.Deliver the channel, Sim.Api the setting of the scene and Sim.Run the clock.
--               Sim.Talk has what examples/desktop_mesh/main.c does with the nodes, and
--               Sim.Scenario every simulation that these calls can lead to; the remaining modules
--               of Sim are proofs, but for Sim.Double
--   Prelude     shared helpers: tests, lists, integers, machine words, bits
--   Tests       the theorems at concrete inputs
--
-- Functions keep their C names without the prefix `tn_`. A function of the instance takes a `Node`
-- and returns the next one, with the result of the C function beside it. A pointer into a table is an
-- index, a NULL result is `none`. A 32-bit, 16-bit or 8-bit number is a natural number, and each
-- wrap-around is written out; a subtraction that C guards is the subtraction of ℕ. `int32_t` values
-- of the moving averages are integers.
--
-- The port is given by functions from the number of the call to its result; the world counts the
-- calls and lists the effects: frames handed to the modem, calls of the application's callbacks, and
-- settings of the wake timer. Nothing is assumed of the port. Callbacks do not call the library.
--
-- The simulator has the instances of its nodes as values. What it does with a `double` is a record of
-- operations (Sim.Double), with no assumption about them. During a poll an instance asks its port for
-- the time, for numbers, and whether a frame was taken; all three are known before the poll but for
-- how many calls there will be, so the poll runs first and its effects are then given to the callbacks
-- in their order.
--
-- Loops over a table are recursions over its list or its length. tn_rx_drain has the number of bytes
-- in the ring plus one as its fuel, and each record that is taken lowers that number, so the loop
-- ends because the ring is drained. tn_events_flush has the number of queued events as its fuel,
-- which each round lowers by one.
--
-- A step of the receive ring is what the fences keep together: the test for room with its snapshot of
-- the other side's position, one copy, or the write of the side's own position.
--
-- Not modelled: memory fences as such (every step sees the writes of all steps before it), null
-- pointers and the alignment of the storage in treenet_init, logging, the version string,
-- treenet_context_size, other build configurations than the default, calls of the library from
-- callbacks, memory that runs out and sim_destroy, the scene and the output of the desktop example,
-- and the tests.
pub mod Prelude
pub mod Config
pub mod Util
pub mod Timer
pub mod Ewma
pub mod Dupcache
pub mod Airtime
pub mod Frame
pub mod Ring
pub mod Scan
pub mod Neighbor
pub mod Routes
pub mod Node
pub mod Sim
pub mod Tests
