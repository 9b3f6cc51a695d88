-- ===== src/Wfb.antt =====
-- gs/fpvdgs/wfb: the data plane of the ground station around the wfb processes.
pub mod AggQueue
pub mod Tunnel
pub mod TxSelector
pub mod Mavlink
pub mod Lineproto
pub mod StatsHub
pub mod Cards
pub mod Cluster
pub mod Radio
pub mod Graph
pub mod Engine
