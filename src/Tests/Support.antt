-- ===== src/Tests/Support.antt =====
-- A server on lists, for the tests: identifiers are numbers, payloads are texts.
use brqueue.Base.{ℕ, String, List, [], ◌∷◌, ◌++◌, ok, err, nat_eq}
use brqueue.Channel.{Channel}
use brqueue.Channel.ListChannel.{list_channel}
use brqueue.Rendezvous.ListRendezvous.{list_rendezvous}
use brqueue.FileManager
use brqueue.FileManager.{Storage}
use brqueue.Models.{Priority}
use brqueue.Models.QueueItem.{QueueItem}
use brqueue.QueueServer.Runtime.{Runtime}

abbrev pub Item : Type 0
Item = QueueItem ℕ String

abbrev pub channel : Channel Item
channel = list_channel Item

abbrev pub item : ℕ → String → Priority → Item
item id tag priority = record {
  payload = "work";
  required_tags = record { inner = tag ∷ [] };
  id = id;
  priority = priority;
}

-- A storage that keeps the items in memory.
abbrev pub memory : Storage ℕ String
memory = record {
  State = List Item;
  new = λ filename require_flush. ok [];
  save_item = λ items x. (ok tt, items ++ x ∷ []);
}

-- A storage that cannot save.
abbrev pub read_only : Storage ℕ String
read_only = record {
  State = List Item;
  new = λ filename require_flush. ok [];
  save_item = λ items x. (err FileManager.Error.mutex_corrupted, items);
}

abbrev pub runtime : Storage ℕ String → Runtime ℕ String
runtime storage = record { channel = channel; rendezvous = list_rendezvous Item; storage = storage }
