-- ===== src/Main.antt =====
-- src/main.rs: the start of the server, and a thread for each connection.
pub mod StartUp
use brqueue.Base.{ℕ, String, Bool, List, [], ◌∷◌, Result, ok, err, Eq}
use brqueue.Std.Fs.{Bytes, Disk, Faults}
use brqueue.Std.Io.{IoError}
use brqueue.Std.Net.{TcpStream}
use brqueue.QueueServer.Errors.{Error}
use brqueue.QueueServer.Runtime.{Runtime}
use brqueue.QueueServer.Operations
use brqueue.QueueServer.Operations.{QueueServer}
use brqueue.Authentication.Crypto.{Bcrypt, Bincode}
use brqueue.Authentication.Errors.{AuthenticationError}
use brqueue.Authentication.Operations.{Authentication, add_default_user}
use brqueue.Authentication.Operations as Users
use brqueue.Client.Handlers
use brqueue.Client.Handlers.{Client}

module _ {U : Type 0} ⦃e : Eq U⦄ (R : Runtime U Bytes) where
  -- What the threads of the connections are given clones of.
  pub record Shared : Type 0 where
    pub queue_server : QueueServer R
    pub auth : Authentication

  -- Where `main` stands before its loop: it listens, or an `expect` has panicked with its text.
  pub data Started : Type 0 where
    listening : Shared → Started
    panicked : String → Started

  module _ (crypt : Bcrypt) (code : Bincode) (faults : Faults) where
    unfoldable pub listen : Shared → Result IoError (Unit {0}) → Started
    listen shared (err x) = panicked "Failed to bind to socket"
    listen shared (ok u) = listening shared

    unfoldable pub with_guest :
        QueueServer R
        → Result IoError (Unit {0})
        → Result AuthenticationError Bool × Authentication × Disk
        → Started × Disk
    unfolding listen
    with_guest qs bound (err x, auth, disk) = (panicked "Failed to add default user", disk)
    with_guest qs bound (ok added, auth, disk) =
        (listen (record { queue_server = qs; auth = auth }) bound, disk)

    unfoldable pub with_users :
        Disk
        → ℕ
        → QueueServer R
        → Result IoError (Unit {0})
        → Result AuthenticationError Authentication
        → Started × Disk
    unfolding with_guest
    with_users disk salt qs bound (err x) = (panicked "Failed to initialize authentication", disk)
    with_users disk salt qs bound (ok auth) =
        with_guest qs bound (add_default_user crypt code faults auth disk salt "guest" "guest")

    unfoldable pub with_queue :
        Disk → ℕ → Result IoError (Unit {0}) → Result Error (QueueServer R) → Started × Disk
    unfolding with_users
    with_queue disk salt bound (err x) = (panicked "Failed to create underlying queue", disk)
    with_queue disk salt bound (ok qs) =
        with_users disk salt qs bound (Users.new crypt code faults disk "storage/auth")

    -- `main` up to its loop, with the disk that holds the users, the salt that the crate bcrypt draws
    -- and the result of `bind`.
    unfoldable pub start_up : Disk → ℕ → Result IoError (Unit {0}) → Started × Disk
    unfolding with_queue
    start_up disk salt bound = with_queue disk salt bound (Operations.new R)

  -- `handle_connection`: what its thread starts with.
  unfoldable pub handle_connection : TcpStream → Shared → Client R × TcpStream
  handle_connection s shared = (Handlers.new R shared.queue_server shared.auth, s)

  -- The loop over `incoming`: the threads that are started. A stream that fails is only logged.
  unfoldable pub accept : Shared → List (Result IoError TcpStream) → List (Client R × TcpStream)
  unfolding handle_connection
  accept shared [] = []
  accept shared (ok stream ∷ incoming) = handle_connection stream shared ∷ accept shared incoming
  accept shared (err x ∷ incoming) = accept shared incoming
