-- ===== src/Client/Connection.antt =====
-- The life of a connection of src/client.rs: authentication, and then a loop over the requests.
use brqueue.Base.{Bool, Option, none, some, List, [], ◌∷◌, Result, ok, err, Eq, if◌then◌else◌}
use brqueue.Base.Int.{ℤ}
use brqueue.Std.Fs.{Bytes}
use brqueue.Std.Net.{TcpStream}
use brqueue.Rpc.RequestWrapper
use brqueue.Rpc.RequestWrapper.{RequestWrapper}
use brqueue.Rpc.ResponseWrapper
use brqueue.Rpc.ResponseWrapper.{ResponseWrapper}
use brqueue.QueueServer.Runtime.{Runtime}
use brqueue.QueueServer.Operations.{QueueServer, Wake}
use brqueue.Authentication.Errors.{AuthenticationError}
use brqueue.Authentication.Operations.{verify_user}
use brqueue.Client.Errors.{Error, request_error, authentication_failed, invalid_login}
use brqueue.Client.Library.{Library}
use brqueue.Client.Framing.{
  Frame, message, failed, panicked, read_message, parse_request, send_reply, reply_error,
}
use brqueue.Client.Handlers.{Client, pop, acknowledge, enqueue, drop_connection}

-- What one round of the loop takes from outside: what the other threads do to the server before it,
-- the identifier that is drawn for an item, and the wakes of a pop that waits.
pub record Round {U : Type 0} ⦃e : Eq U⦄ (R : Runtime U Bytes) : Type 0 where
  pub interfere : QueueServer R → QueueServer R
  pub fresh : U
  pub wakes : List (Wake R)

-- How a connection ends, or where it stands: no login, a lost or unreadable connection, a message
-- that does not parse, a panic, a pop that waits, or a next round.
pub data Ending : Type 0 where
  unauthenticated dropped unparsed crashed waiting running : Ending

module _ {U : Type 0} ⦃e : Eq U⦄ (R : Runtime U Bytes) (lib : Library U) where
  abbrev pub login_response : Bool → ℤ → ResponseWrapper
  login_response success ref_id =
      ResponseWrapper.set_ref_id
        (ResponseWrapper.set_authenticate ResponseWrapper.new (record { success = success })) ref_id

  -- What `ensure_auth` does with the verdict on the user: it replies, and then lets the user in.
  unfoldable pub admit :
      TcpStream → ℤ → Result AuthenticationError Bool → Result Error (Unit {0}) × TcpStream
  admit s ref_id (err x) = (err (authentication_failed x), s)
  admit s ref_id (ok success) =
      let (r, t) = send_reply lib s (login_response success ref_id) in
      elim r [ err x ↦ (err x, t) | ok u ↦ (if success then ok tt else err invalid_login, t) ]

  unfoldable pub check_login :
      Client R → TcpStream → Result Error RequestWrapper → Result Error (Unit {0}) × TcpStream
  unfolding admit
  check_login c s (err x) = (err x, s)
  check_login c s (ok m) =
      if RequestWrapper.has_authenticate m
      then (let request = RequestWrapper.get_authenticate m in
          admit s m.ref_id (verify_user lib.crypt c.auth request.username request.password))
      else (err (request_error "Invalid request"), s)

  -- `none` is a panic.
  unfoldable pub after_read :
      Client R → Frame × TcpStream → Option (Result Error (Unit {0})) × TcpStream
  unfolding check_login
  after_read c (panicked, s) = (none, s)
  after_read c (failed x, s) = (some (err x), s)
  after_read c (message content, s) =
      let (r, t) = check_login c s (parse_request lib content) in (some r, t)

  unfoldable pub ensure_auth : Client R → TcpStream → Option (Result Error (Unit {0})) × TcpStream
  unfolding after_read
  ensure_auth c s = after_read c (read_message lib s)

  -- The choice of the handler. `none` means that a pop still waits.
  unfoldable pub dispatch :
      Client R → Round R → RequestWrapper → Option (Result Error ResponseWrapper) × Client R
  dispatch c round m =
      if RequestWrapper.has_enqueue m
      then (let (r, d) = enqueue R lib c round.fresh (RequestWrapper.get_enqueue m) in (some r, d))
      else if RequestWrapper.has_acknowledge m
      then (let (r, d) = acknowledge R lib c (RequestWrapper.get_acknowledge m) in (some r, d))
      else if RequestWrapper.has_pop m
      then pop R lib c (RequestWrapper.get_pop m) round.wakes
      else (some (err (request_error "Unknown request")), c)

  -- The reply to a request; an error that is no request error is only logged.
  unfoldable pub respond : TcpStream → ℤ → Result Error ResponseWrapper → TcpStream
  respond s ref_id (ok m) = (send_reply lib s (ResponseWrapper.set_ref_id m ref_id)).1
  respond s ref_id (err (request_error text)) = reply_error lib s text ref_id
  respond s ref_id (err _) = s

  -- The loop of `handle_connection`, a round at a time.
  unfoldable pub serve : Client R → TcpStream → List (Round R) → Ending × Client R × TcpStream
  serve c s [] = (running, c, s)
  serve c s (round ∷ rounds) =
      let d = record c { queue_server = round.interfere c.queue_server } in
      let (f, t) = read_message lib s in
      elim f [
        | failed x ↦ (dropped, drop_connection R d, t)
        | panicked ↦ (crashed, d, t)
        | message content ↦ elim (parse_request lib content) [
          | err x ↦ (unparsed, d, t)
          | ok m ↦
              let (answer, c') = dispatch d round m in
              elim answer [
                | none ↦ (waiting, c', t)
                | some r ↦ serve c' (respond t m.ref_id r) rounds
              ]
        ]
      ]

  unfoldable pub after_auth :
      Client R
      → List (Round R)
      → Option (Result Error (Unit {0})) × TcpStream
      → Ending × Client R × TcpStream
  unfolding serve
  after_auth c rounds (none, s) = (crashed, c, s)
  after_auth c rounds (some (err x), s) = (unauthenticated, c, s)
  after_auth c rounds (some (ok u), s) = serve c s rounds

  unfoldable pub handle_connection :
      Client R → TcpStream → List (Round R) → Ending × Client R × TcpStream
  unfolding ensure_auth after_auth
  handle_connection c s rounds = after_auth c rounds (ensure_auth c s)
