-- ===== src/Controller.antt =====
-- etl/controller: the pulses' completeness, the reload register and the two maintenance loops.
pub mod Completeness
pub mod MissedData
pub mod Register
pub mod Sequence
