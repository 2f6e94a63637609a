-- ===== src/Examples.antt =====
-- Small concrete rooms, sockets and uploads, at which each theorem is applied.
mod Data
mod Messages
mod Reading
mod Overrides
mod Rooms
mod Sockets
mod Live
mod Uploads
mod Calls
mod RoomReads
mod Pages
mod Timelines
mod Inboxes
mod Searches
mod Emojis
