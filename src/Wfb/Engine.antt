-- ===== src/Wfb/Engine.antt =====
-- gs/fpvdgs/wfb/engine.py: the engine that starts the graph's processes and wires them.
pub mod TxSockets
pub mod Aims
pub mod Wired
pub mod Setup
pub mod Stops
pub mod Balance
pub mod Prepare
pub mod Nodes
pub mod Lifecycle
mod Tests
use Prim.Native.String.{String}
use fpvd.Prelude.{List, [], ◌∷◌}

abbrev pub rx_leg_order : List String
rx_leg_order = "video_rx" ∷ "mavlink_rx" ∷ "tunnel_rx" ∷ []

abbrev pub tx_leg_order : List String
tx_leg_order = "mavlink_tx" ∷ "tunnel_tx" ∷ []
