-- ===== src/Supervision.antt =====
-- The two supervisors of child processes: gs/fpvdgs/runner_supervisor.py and gs/fpvdgs/wfb/children.py.
pub mod Budget
pub mod Process
pub mod Child
pub mod Respawn
mod Tests
