-- ===== src/Engine.antt =====
-- src/optimizer/solver/engine.py: the schedule of a route, nearest-neighbour construction and
-- 2-opt improvement.
pub mod Schedule
pub mod Nearest
pub mod TwoOpt
mod Tests
