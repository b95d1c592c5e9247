-- ===== src/Tests/MainTests.antt =====
-- Tests of src/main.rs.
use brqueue.Base.{String, ◌≡◌, refl, true, [], ◌∷◌, ok, err, nat_eq, string_eq}
use brqueue.Std.Fs.{Disk, no_faults, open_file, create}
use brqueue.Std.HashMap
use brqueue.Std.Io.{other_kind}
use brqueue.QueueServer.Operations
use brqueue.QueueServer.Operations.{QueueServer, new_server}
use brqueue.Authentication.Operations.{Authentication, verify_user, new_user}
use brqueue.Authentication.Operations as Users
use brqueue.Main.{listening, panicked, start_up}
use brqueue.Main.StartUp.{start_up-twice}
use brqueue.Tests.Crates.{plain, guest_code}
use brqueue.Tests.ClientTests.{runtime}

opened : Operations.new runtime ≡ ok (new_server runtime [])
unfolding Operations.new
opened = refl

start_up-twice_example :
    (a : Authentication) × (b : Authentication) × (left : Disk) × (start_up runtime plain guest_code
        no_faults [] 5
        (ok tt)
      ≡ (listening (record { queue_server = new_server runtime []; auth = a }), left))
    × (verify_user plain a "guest" "guest" ≡ ok true)
    × (start_up runtime plain guest_code no_faults left 6 (ok tt)
        ≡ (listening (record { queue_server = new_server runtime []; auth = b }), left))
    × ((name pw : String) → verify_user plain b name pw ≡ verify_user plain a name pw)
unfolding new_user HashMap.get string_eq
start_up-twice_example =
    start_up-twice plain guest_code no_faults runtime (new_server runtime []) [] 5 "guest" (1 ∷ [])
      runtime (new_server runtime []) 6 opened opened refl refl refl refl refl refl

-- A socket that is taken ends the program, after the user guest has been added.
port_taken :
    (start_up runtime plain guest_code no_faults [] 5
      (err (record { kind = other_kind; text = "Address already in use (os error 98)" })))
    ≡ (panicked "Failed to bind to socket", ("storage/auth", 1 ∷ []) ∷ [])
unfolding start_up Operations.new Users.new Users.load open_file HashMap.get Users.add_default_user
    HashMap.is_empty Users.save_changes create Users.added HashMap.insert string_eq
port_taken = refl
