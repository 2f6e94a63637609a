-- ===== src/PageRead.antt =====
-- frontend/src/pages/chatRoomPage/useChatRoomPageReadState.ts and the part of utils.ts beside it that it
-- calls: what the page of a room does about reads, and how it loads back to a message. A ref and a
-- state variable are fields, a state update takes effect at once, and scrolling is left out.
pub mod Storage
pub mod Written
pub mod Sync
pub mod Events
pub mod Pacing
pub mod Keeping
pub mod Kept
pub mod History
pub mod Jump
