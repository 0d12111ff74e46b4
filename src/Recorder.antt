-- ===== src/Recorder.antt =====
-- The recorder (recorder/): notification channels and the session that drains them.
pub mod Interfaces
pub mod NotifyChannel
pub mod RecordingSession
