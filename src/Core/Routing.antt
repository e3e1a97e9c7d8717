-- ===== src/Core/Routing.antt =====
-- Where a tx topic leads, internal/core: the routing table that Run of core.go builds, and of tx.go
-- the intake with its fan-out to the devices of a group. A pipeline is known by its index, where the
-- program shares a pointer. Log records are left out.
pub mod Fanout
use device_serial_scanner.Common.{
  ℕ, zero, suc, Bool, Option, none, some, List, [], ◌∷◌, ◌++◌, Bytes, Assoc, lookup, put,
}
use device_serial_scanner.Wire.Topics.{TxRoute}
use device_serial_scanner.Wire.ReadTx.{Codec}
use device_serial_scanner.Core.Pipeline.{Pipeline}
use device_serial_scanner.Core.Tx.{TxMessage, admit_tx_to}

-- txTarget.
pub record TxTarget : Type 0 where
  pub route : TxRoute
  pub lines : List ℕ

abbrev pub Table : Type 0
Table = Assoc TxTarget

-- One route of the device at an index: its topic's target, made if there is none, gets the device.
unfoldable pub add_route : ℕ → TxRoute → Table → Table
add_route index route table = elim (lookup route.topic table) [
  | none ↦ put route.topic (record { route = route; lines = index ∷ [] }) table
  | some target ↦
      put route.topic (record { route = target.route; lines = target.lines ++ index ∷ [] }) table
]

unfoldable pub add_routes : ℕ → List TxRoute → Table → Table
unfolding add_route
add_routes index [] table = table
add_routes index (route ∷ routes) table = add_routes index routes (add_route index route table)

-- Run's loop over the devices, each given by its routes.
unfoldable pub add_devices : ℕ → List (List TxRoute) → Table → Table
unfolding add_routes
add_devices index [] table = table
add_devices index (routes ∷ devices) table =
    add_devices (suc index) devices (add_routes index routes table)

unfoldable pub by_tx_topic : List (List TxRoute) → Table
unfolding add_devices
by_tx_topic devices = add_devices 0 devices []

-- The pipeline at an index takes the message.
unfoldable pub admit_at :
    Codec → (ℕ → ℕ) → (ℕ → Bool) → TxMessage → ℕ → ℕ → List Pipeline → List Pipeline
unfolding admit_tx_to
admit_at codec now stopping message id k [] = []
admit_at codec now stopping message id zero (line ∷ lines) =
    admit_tx_to codec (now id) (stopping id) message line ∷ lines
admit_at codec now stopping message id (suc k) (line ∷ lines) =
    line ∷ admit_at codec now stopping message id k lines

-- The loop of admitTx over the target's lines. The clock, and whether the agent is stopping, are
-- those that each device's admission meets.
unfoldable pub admit_lines :
    Codec → (ℕ → ℕ) → (ℕ → Bool) → TxMessage → List ℕ → List Pipeline → List Pipeline
unfolding admit_at
admit_lines codec now stopping message [] lines = lines
admit_lines codec now stopping message (k ∷ ks) lines =
    admit_lines codec now stopping message ks (admit_at codec now stopping message k k lines)

-- admitTx: a topic that is no device's leads nowhere.
unfoldable pub admit_tx :
    Codec → (ℕ → ℕ) → (ℕ → Bool) → Table → TxMessage → List Pipeline → List Pipeline
unfolding admit_lines
admit_tx codec now stopping table message lines = elim (lookup message.topic table) [
  | none ↦ lines
  | some target ↦ admit_lines codec now stopping message target.lines lines
]

-- receiveTxs: each tx in the order of its arrival.
unfoldable pub receive_txs :
    Codec → List ((ℕ → ℕ) × (ℕ → Bool) × TxMessage) → Table → List Pipeline → List Pipeline
unfolding admit_tx
receive_txs codec [] table lines = lines
receive_txs codec ((now, stopping, message) ∷ messages) table lines =
    receive_txs codec messages table (admit_tx codec now stopping table message lines)
