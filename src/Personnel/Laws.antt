-- ===== src/Personnel/Laws.antt =====
-- What the use cases of src/personnel/domain promise together.
pub mod Frames
pub mod Validity
pub mod Outcomes
pub mod History
pub mod Keeping
