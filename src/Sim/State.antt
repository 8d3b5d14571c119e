-- ===== src/Sim/State.antt =====
-- `struct sim` of src/sim/sim.c and `sim_node_t` of src/sim/sim.h.
use treenity.Prelude.{ℕ, zero, suc, Bool, List, [], ◌∷◌, Option, none, some}
use treenity.Prelude.Int.{ℤ}
use treenity.Node.State.{Node, Role, Event}

abbrev pub max_nodes : ℕ
max_nodes = 32

abbrev pub channel_capacity : ℕ
channel_capacity = 512

abbrev pub step_ms : ℕ
step_ms = 10

-- `sim_node_t`; `net` is the instance that the pointer leads to, which no other node shares.
pub record SimNode {ℓ} (W : Type ℓ) : Type ℓ where
  pub addr : ℕ
  pub role : Role
  pub x : W
  pub y : W
  pub active : Bool
  pub net : Node
  pub datagrams_rx : ℕ
  pub events : ℕ
  pub last_src : ℕ
  pub last_len : ℕ
  pub last_rssi : ℤ
  pub last_snr : ℤ
  pub last_timer_arm : ℕ
  pub max_timer_arm : ℕ
  pub timer_arm_count : ℕ

-- `sim_txrec_t`; `buf` has the first `len` bytes, which alone are read.
pub record TxRec : Type 0 where
  pub sender : ℕ
  pub buf : List ℕ

-- Calls of the observation hooks, with the index of the node.
pub data HookCall : Type 0 where
  user_recv : (node src : ℕ) → List ℕ → (rssi snr : ℤ) → (hops : ℕ) → HookCall
  user_event : (node : ℕ) → Event → HookCall

-- `struct sim`. `count` and `channel_count` are the lengths of the lists; the scratch of the
-- reception is local to sim_deliver. `hook_calls` has what the hooks were told, newest first.
pub record Sim {ℓ} (W : Type ℓ) : Type ℓ where
  pub now_ms : ℕ
  pub rnd : ℕ
  pub tx_power_dbm : W
  pub sensitivity_dbm : W
  pub noise_floor_dbm : W
  pub ref_loss_db : W
  pub path_loss_exp : W
  pub range_m : W
  pub bit_error_rate : W
  pub radio_sf : ℕ
  pub radio_bw_hz : ℕ
  pub net_id : ℕ
  pub nodes : List (SimNode W)
  pub channel : List TxRec
  pub has_user_recv : Bool
  pub has_user_event : Bool
  pub hook_calls : List HookCall

module _ {ℓ} {A : Type ℓ} where
  -- The element at an index, or NULL behind the end.
  abbrev pub at : List A → ℕ → Option A
  at [] i = none
  at (x ∷ xs) zero = some x
  at (x ∷ xs) (suc i) = at xs i

  -- The list with one element changed.
  abbrev pub update : ℕ → (A → A) → List A → List A
  update i f [] = []
  update zero f (x ∷ xs) = f x ∷ xs
  update (suc i) f (x ∷ xs) = x ∷ update i f xs
