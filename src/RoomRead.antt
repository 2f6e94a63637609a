-- ===== src/RoomRead.antt =====
-- frontend/src/shared/roomReadState/RoomReadStateProvider.tsx: how far each room has been read and how many of its
-- messages have not. A state update takes effect at once, and the effect that publishes the counts
-- is an operation of its own. `lower` is `String.prototype.toLowerCase`.
pub mod Refs
pub mod Keys
pub mod Projection
pub mod Provider
pub mod Snapshot
pub mod Reference
pub mod Publishing
pub mod Published
pub mod Entries
pub mod Progress
pub mod Cursors
pub mod Keyed
pub mod Refinement
