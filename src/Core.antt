-- ===== src/Core.antt =====
-- The core library (core/): the undo history, the recorded signals and the store that shares them.
pub mod UndoStack
pub mod Types
pub mod Signal
pub mod SignalStore
