-- ===== src/Tests/ClientTests.antt =====
-- Tests of src/client.rs.
use brqueue.Base.{
  ℕ_discrete, ℕ, ◌≡◌, refl, ◌≢◌, ◌⊎◌, true, false, Option, none, some, List, [], ◌∷◌, ◌++◌, Result,
  ok, err, nat_eq, string_eq, if◌then◌else◌, arith, dec_lt,
}
use brqueue.Std.Fs.{Bytes}
use brqueue.Std.HashSet
use brqueue.Std.HashMap
use brqueue.Std.Mutex
use brqueue.Std.Net.{TcpStream, chunk, read, write_all}
use brqueue.Channel.ListChannel.{list_channel}
use brqueue.Rendezvous.ListRendezvous.{list_rendezvous}
use brqueue.Models.{high}
use brqueue.Models.QueueItem.{QueueItem}
use brqueue.Rpc.Messages.{PopRequest}
use brqueue.Binary
use brqueue.QueueServer.Runtime.{Runtime}
use brqueue.QueueServer.Operations.{QueueServer}
use brqueue.QueueServer.Delivery.{in_process}
use brqueue.Authentication.Operations.{Authentication, verify_user}
use brqueue.Client.Errors.{parse_error}
use brqueue.Client.Framing.{message, read_message, parse_request, send_reply}
use brqueue.Client.Frames.{size_of, read_message_short}
use brqueue.Client.Handlers.{Client, drop_connection}
use brqueue.Client.Tasks.{IsQueued, drop_connection_requeues}
use brqueue.Client.Connection.{Round, dropped, unparsed, ensure_auth, serve, handle_connection}
use brqueue.Client.Sessions.{LoggedIn, Denied, handle_connection-LoggedIn}
use brqueue.Client.Held.{Keeps, Tracks, serve-Tracks}
use brqueue.Tests.Crates.{crates, guest}

abbrev pub Task : Type 0
Task = QueueItem ℕ Bytes

abbrev pub runtime : Runtime ℕ Bytes
runtime = record {
  channel = list_channel Task;
  rendezvous = list_rendezvous Task;
  storage = record {
    State = List Task;
    new = λ filename require_flush. ok [];
    save_item = λ items x. (ok tt, items ++ x ∷ []);
  };
}

abbrev pub task : ℕ → Task
task id = record {
  payload = 65 ∷ [];
  required_tags = record { inner = [] };
  id = id;
  priority = high;
}

abbrev pub server : QueueServer runtime
server = record {
  queue = record { high_priority_queue = task 1 ∷ []; low_priority_queue = [] };
  file_manager = Mutex.new [];
  waiting = record { receivers = 0; taken = [] };
  processing = Mutex.new ((7, task 7) ∷ []);
}

abbrev pub auth : Authentication
auth = record {
  content = Mutex.new (record { users = ("guest", guest) ∷ [] });
  data_path = "storage/auth";
}

abbrev pub client : Client runtime
client = record { queue_server = server; outstanding_tasks = Mutex.new (7 ∷ []); auth = auth }

abbrev closed : TcpStream
closed = record { incoming = []; outgoing = []; write_error = none }

abbrev pub quiet : Round runtime
quiet = record { interfere = λ s. s; fresh = 9; wakes = [] }

abbrev split_message : TcpStream
split_message = record closed {
  incoming = chunk (size_of crates (1 ∷ 2 ∷ []) ++ 1 ∷ []) ∷ chunk (2 ∷ []) ∷ [];
}

abbrev whole_message : TcpStream
whole_message = record closed {
  incoming = chunk (size_of crates (5 ∷ 6 ∷ []) ++ 5 ∷ 6 ∷ 9 ∷ []) ∷ [];
}

abbrev no_message : TcpStream
no_message = record closed { incoming = chunk (size_of crates []) ∷ [] }

no_login :
    {A : Type 0} {o : Option (Result A (Unit {0}))} {x : A} → o ≡ some (err x) → o ≢ some (ok tt)
no_login h k = cc (h, k)

read_message_short_example :
    read_message crates split_message
    ≡ (message (1 ∷ 0 ∷ []), record split_message { incoming = chunk (2 ∷ []) ∷ [] })
read_message_short_example =
    read_message_short crates split_message 1 [] (2 ∷ []) [] (omega arith) refl

drop_connection_requeues_example :
    let t = (drop_connection runtime client).queue_server in
    ((id : ℕ)
      → in_process runtime t id
        ≡ (if HashSet.contains (7 ∷ []) id then none else in_process runtime server id))
    × ((id : ℕ) (x : Task)
        → HashSet.contains (7 ∷ []) id ≡ true
        → in_process runtime server id ≡ some x
        → IsQueued runtime t x)
    × ((x : Task) → IsQueued runtime server x → IsQueued runtime t x)
drop_connection_requeues_example = drop_connection_requeues runtime client refl refl refl

abbrev asking : PopRequest
asking = record { available_capabilities = []; wait_for_message = false }

-- Nothing happens between the rounds.
quiet-Keeps : Keeps runtime crates 7 quiet
quiet-Keeps = record { before = λ s h. h; meanwhile = tt }

no_message-serve : (serve runtime crates client no_message (quiet ∷ [])).0 ≡ unparsed
unfolding serve read_message read parse_request Binary.get_size dec_lt
no_message-serve = refl

serve-Tracks_example :
    let r = serve runtime crates client no_message (quiet ∷ []) in
    (r.0 ≡ dropped) ⊎ Tracks runtime crates 7 r.1
unfolding HashMap.get nat_eq ℕ_discrete
serve-Tracks_example =
    serve-Tracks runtime crates 7 (quiet ∷ []) client no_message
      (record { sound = refl; held = λ h. (task 7, refl) }) (quiet-Keeps, tt)

no_message-ensure_auth :
    (ensure_auth runtime crates client no_message).0 ≡ some (err (parse_error "unexpected EOF"))
unfolding ensure_auth read_message read parse_request Binary.get_size dec_lt
no_message-ensure_auth = refl

handle_connection-LoggedIn_example :
    (LoggedIn runtime crates client whole_message
      × (handle_connection runtime crates client whole_message (quiet ∷ [])
          ≡ serve runtime crates client
              (ensure_auth runtime crates client whole_message).1
              (quiet ∷ [])))
    ⊎ Denied runtime crates client whole_message
        (handle_connection runtime crates client whole_message (quiet ∷ []))
handle_connection-LoggedIn_example =
    handle_connection-LoggedIn runtime crates client whole_message (quiet ∷ [])

whole_message-served : (ensure_auth runtime crates client whole_message).0 ≡ some (ok tt)
unfolding ensure_auth read_message read parse_request Binary.get_size dec_lt send_reply verify_user
    string_eq HashMap.get Binary.get_size_array write_all
whole_message-served = refl
