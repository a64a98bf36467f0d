-- ===== src/Inbox.antt =====
-- The inbox of an agent: its messages (src/message.go), the table that keeps them
-- (src/db/sqlite_inbox.go), and the queue that hands them to the agent (src/inbox.go).
pub mod Message
pub mod Store
pub mod Queue
