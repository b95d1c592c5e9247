-- ===== src/Lib.antt =====
-- Verification library of brqueue, a work queue server (src/ of the repository).
--
-- The program. A producer or consumer connects over TCP. Each connection is one client
-- (src/client.rs): it logs in, and then sends requests, each in a frame of its size and its bytes.
-- The clients share one queue server (src/queue_server.rs), which saves an enqueued item
-- (src/internal_queue_file_manager.rs), hands it to a consumer that waits or puts it into the queue
-- of its priority (src/queue.rs), and keeps every popped item as being processed until it is
-- acknowledged, or failed when the connection of its consumer is dropped.
--
-- Which file models what. A module has the name of the part of the program, and its definitions
-- the names of the functions; a definition that has no function of its own in the source is the
-- rest of one (`after_save` is what `enqueue` does after the call of `save_item`).
--   Models, Models/Tags, Models/QueueItem: src/models.rs. An identifier of the crate uuid is
--     of a type that is a parameter, and the one that `new` draws is an argument.
--   Queue: src/queue.rs, over the channel of Channel. Queue/Threads has the same operations as
--     threads, with one access of the shared channel a step, and the system of the channel and
--     the calls that were made, which interleave in any order.
--   QueueServer/Errors, QueueServer/Manager, QueueServer/Operations: src/queue_server.rs. The
--     state `QueueServer` has the fields of the struct, with one field for both ends of the
--     channel to the waiting consumers. Each method returns its result and the state after it.
--     What happens between two rounds of the waiting loop of `pop_item` comes from outside, as
--     a list of wakes.
--   QueueServer/Exclusive: calls of the methods that interleave. There a pop takes an item
--     from the queues, or is handed one, in one step, and notes it as being processed in
--     another.
--   QueueServer/Runtime: the channel, the rendezvous channel and the storage that the server
--     uses.
--   FileManager: the errors of src/internal_queue_file_manager.rs, and the interface through
--     which the queue server uses it. Its methods work on a disk whose operations can fail:
--     FileManager/Files opens the files, Saving has `save_item`, Access `load_items`,
--     `mark_as_completed` and `flush_data`, and Collection `run_garbage_collection`, in the
--     steps `switch_to`, `compact`, `merge` and `remove_gc_files`. FileManager/Journal has the
--     journal that the files stand for.
--   FileItemReader: src/file_item_reader.rs. A reader is what is left of its file.
--   Authentication: src/authentication/mod.rs. Files are a map from paths to bytes, and which
--     operation on which file fails is a parameter. The crate bcrypt has its salt as an
--     argument.
--   Binary: src/binary.rs.
--   Main: src/main.rs. `start_up` is `main` up to its loop, with an outcome for the panic of
--     each `expect`, and `accept` the loop.
--   Rpc: src/rpc/queue.rs. Messages, RequestWrapper and ResponseWrapper hold the messages,
--     without the fields for unknown fields and for the cached size, and Rpc/Accessors and the
--     two wrappers their accessors. A mutable reference that an accessor returns is what its
--     caller makes of the value. Requests, RequestCodec, Responses and ResponseCodec hold what
--     `merge_from` does with a field (`_step`), `compute_size` (`_size`) and
--     `write_to_with_cached_sizes` (`_write`) of each message, over the streams of
--     Rpc/Runtime. Merge has the loop of `merge_from`.
--   Client/Errors, Client/Framing, Client/Handlers, Client/Connection: src/client.rs. A
--     connection is what arrives on it, in the pieces in which it arrives, and what was
--     written to it. The loop of `handle_connection` takes a list of rounds, each with what
--     the other connections do to the server before it, and ends as `running` when the list is
--     used up.
--   Client/Library: the crates that src/client.rs calls. Client/Messages says that they read
--     and write the messages of Rpc.
--   The other modules hold lemmas and the properties: Queue/Order and Queue/Conservation on
--     the queue, Queue/Threads/Conserved, Alone, Outcomes and Races on its interleaved calls,
--     QueueServer/Manager/Priorities and Arrivals on the two queues, QueueServer/Enqueue,
--     Delivery, Held, Waiting, WellFormed and Reach on the server, Places, Exclusive/Moves and
--     Exclusive/AtMostOnce on its interleaved calls, Main/StartUp on its start,
--     FileItemReader/Reading and Writing, Authentication/Login and Storing, Client/Frames,
--     Bounds, Requests, Tasks, Sessions, Messages, Login, Exchange, Submission, Retrieval,
--     Relay and Held, and Rpc/Fields, Sizes, ReadBack, RequestReadBack, Ends, ResponseFields
--     and ResponseReadBack. On the files, FileManager/Opened and Recording have the single calls,
--     Views, Compaction, Merging, Removal, Rewriting and Collecting the garbage collection,
--     Interrupted one that fails, Starting the opening, and Pending, Simulation and Refinement
--     what is left to do, Buffered, Unwritten and Unflushed items that are saved without
--     flushing; QueueServer/Durability has the server on these files. Base and Std are shared:
--     lists, integers, sets, maps, locks, errors of input and output, files and connections.
--     Tests holds runs of the code on small inputs, with implementations of every parameter.
--
-- Parameters. Code of other crates is an argument, with the laws that the code relies on: a
-- channel of crossbeam is first in, first out (Channel; ListChannel meets the laws); `try_send` on
-- the channel of capacity zero hands the item over exactly when a consumer waits (Rendezvous;
-- ListRendezvous meets the laws); bcrypt verifies a password against its own hash; bincode reads
-- what it wrote; byteorder writes four bytes and reads a size back; an identifier is read back
-- from its text; the coded streams of protobuf read a field back as it was written (Rpc/Runtime).
-- The client takes the reading and writing of whole messages as a parameter, which
-- Client/Messages joins to the messages of Rpc.
--
-- Bounds and fuel. The loops over a channel take as many rounds as it holds messages, and one
-- more; Queue/Order shows that this is enough, since they return what the whole queue determines.
-- The loop of `merge_from` has as much fuel as the stream has bytes, and Rpc/Ends shows that it
-- gives what the loop without fuel ends with; the same holds of reading a file, in FileItemReader/Reading. A
-- length is cut to 32 bits where the source has `as i32`, and a size where it is a `u32`. The
-- rounds of bcrypt are those of a release build. The writer of the users is one that writes when
-- it is dropped, which is so for data of at most its 8 KiB.
--
-- What is not modelled. The threads of the server take turns at the level of whole operations,
-- except in Queue/Threads, where every access of the channel is a step, in
-- QueueServer/Exclusive, where a pop of the two queues is one, in the waiting loop, and in a
-- garbage collection, where what the others do is a function of the state that is applied once
-- the files of the collection are open; that they write to the normal files before the
-- collection has ended is not covered. A path is a text and folders hold nothing;
-- `Path::parent` is an argument. A writer keeps the path of its file, and the source renames
-- and removes files only when their writers are dropped. A write takes all of its bytes or
-- none. The properties of whole runs of the file manager are about a file system without
-- errors, apart from one that cannot rename; those with garbage collections are about writers
-- that flush, as the queue server asks for. Unknown fields of messages, reflection, logging,
-- and the listening socket are left out, and a poisoned lock is a flag that nothing in the
-- model sets.
pub mod Base
pub mod Std
pub mod Models
pub mod Channel
pub mod Queue
pub mod Rendezvous
pub mod FileManager
pub mod FileItemReader
pub mod QueueServer
pub mod Authentication
pub mod Rpc
pub mod Binary
pub mod Client
pub mod Main
mod Tests
