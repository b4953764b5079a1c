-- ===== src/Terminal.antt =====
-- The terminal of a running command: recovery history, sudo gate, output batches, input writer.
pub mod History
pub mod Size
pub mod Gate
pub mod Batcher
pub mod Writer
pub mod Reader
