-- ===== src/QueueServer/Runtime.antt =====
-- What a queue server of src/queue_server.rs runs on: the channels of its queues, the channel on
-- which it hands an item to a waiting consumer, and the storage that saves its items.
use brqueue.Channel.{Channel}
use brqueue.Rendezvous.{Rendezvous}
use brqueue.FileManager.{Storage}
use brqueue.Models.QueueItem.{QueueItem}

pub record Runtime (U T : Type 0) : Type 1 where
  pub channel : Channel (QueueItem U T)
  pub rendezvous : Rendezvous (QueueItem U T)
  pub storage : Storage U T
