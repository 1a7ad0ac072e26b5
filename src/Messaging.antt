-- ===== src/Messaging.antt =====
-- services/messaging/marga_messaging and the schemas that it moves.
pub mod Message
pub mod PriorityQueue
pub mod StoreForward
pub mod Connectivity
mod Tests
