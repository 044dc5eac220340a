-- ===== src/Arena.antt =====
-- arena/src/playbook_arena: the runner that drives a scripted worker and keeps its evidence.
pub mod Controller
pub mod Schema
pub mod Judge
pub mod Chain
