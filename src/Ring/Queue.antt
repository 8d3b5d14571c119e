-- ===== src/Ring/Queue.antt =====
-- What the ring promises: a bounded queue of records, each a frame with its metadata.
use treenity.Prelude.{
  ℕ, ◌+◌, ◌-◌, ◌<◌, ◌≡◌, Bool, true, false, List, [], ◌∷◌, ◌++◌, Option, none, some, ltb, length,
  if◌then◌else◌,
}
use treenity.Prelude.Int.{pos, negsuc, ◌≤ℤ◌}
use treenity.Config.{rx_ring_bytes}
use treenity.Ring.Defs.{RxMeta, rx_hdr, meta_bytes}

abbrev pub Record : Type 0
Record = RxMeta × List ℕ

-- What the C types of the metadata can hold, with as many bytes as the metadata says.
pub record IsRecord (r : Record) : Type 0 where
  pub len : r.0.len < 65536
  pub bytes : length r.1 ≡ r.0.len
  pub rssi : (negsuc 32767 ≤ℤ r.0.rssi_dbm) × (r.0.rssi_dbm ≤ℤ pos 32767)
  pub snr : (negsuc 127 ≤ℤ r.0.snr_db) × (r.0.snr_db ≤ℤ pos 127)

abbrev pub AreRecords : List Record → Type 0
AreRecords [] = Unit {0}
AreRecords (r ∷ q) = IsRecord r × AreRecords q

abbrev pub record_bytes : Record → List ℕ
record_bytes r = meta_bytes r.0 ++ r.1

abbrev pub flat : List Record → List ℕ
flat [] = []
flat (r ∷ q) = record_bytes r ++ flat q

-- A record that does not fit is refused.
unfoldable pub push : List Record → Record → List Record × Bool
push q r =
    if ltb (rx_ring_bytes - length (flat q)) (rx_hdr + r.0.len)
    then (q, false)
    else (q ++ r ∷ [], true)

-- A record that is longer than the reader's buffer makes it drop the whole queue.
unfoldable pub pop : List Record → ℕ → List Record × Option Record
pop [] max = ([], none)
pop (r ∷ q) max = if ltb max r.0.len then ([], none) else (q, some r)
