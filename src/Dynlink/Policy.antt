-- ===== src/Dynlink/Policy.antt =====
-- gs/fpvdgs/dynlink/policy.py: `Policy`, which runs the selector on every window.
-- The flight log is not modelled: it only records values. A reason is kept as its values.
mod State
mod Demotes
mod Tick
mod Loss
pub mod Lowered
pub mod Steps
pub mod LossEvents
pub mod Cooldown
pub mod Gates
mod Tests
unfoldable pub use State.*
unfoldable pub use Demotes.*
unfoldable pub use Tick.*
unfoldable pub use Loss.*
