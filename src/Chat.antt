-- ===== src/Chat.antt =====
-- Socket (Multi Threaded)/: the chat room, its message queue, its server and its client.
pub mod Client
pub mod Queue
pub mod Room
mod Tests
