-- ===== src/Dynlink.antt =====
-- gs/fpvdgs/dynlink: the link controller of the ground station.
pub mod Knee
pub mod LearnedPrior
pub mod Selector
pub mod Signals
pub mod Wire
pub mod Policy
pub mod Defaults
pub mod Samples
