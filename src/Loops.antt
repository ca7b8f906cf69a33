-- ===== src/Loops.antt =====
-- pkg/loopdetection: the detection of loops in a model's answers.
pub mod Cycle
pub mod Exact
