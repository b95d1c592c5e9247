-- ===== src/Models.antt =====
-- src/models.rs: priorities, tags and queue items.
pub mod Tags
pub mod QueueItem
pub mod Routing

pub data Priority : Type 0 where
  low high : Priority
