-- ===== src/Client/Held.antt =====
-- What becomes of the outstanding tasks of a connection of src/client.rs: they are held as being
-- processed for as long as the connection is not dropped.
use brqueue.Base.{
  String, ◌≡◌, ◌⊎◌, refl, subst, inl, inr, true, false, Option, none, some, List, [], ◌∷◌, Result,
  ok, err, Eq, ◌==◌, All, arith, Bool-cases, Result-cases, Option-cases,
}
use brqueue.Std.Fs.{Bytes}
use brqueue.Std.HashSet
use brqueue.Std.HashSet.{HashSet}
use brqueue.Std.Net.{TcpStream}
use brqueue.Models.QueueItem.{QueueItem}
use brqueue.Rpc.Messages.{EnqueueRequest, PopRequest}
use brqueue.Rpc.RequestWrapper
use brqueue.Rpc.RequestWrapper.{RequestWrapper}
use brqueue.QueueServer.Errors
use brqueue.QueueServer.Runtime.{Runtime}
use brqueue.QueueServer.Operations
use brqueue.QueueServer.Operations.{QueueServer, Wake}
use brqueue.QueueServer.Held.{
  IsHeld, found, pop-IsHeld, pop-found, enqueue-IsHeld, acknowledge-IsHeld, acknowledge-same,
}
use brqueue.Client.Library.{Library}
use brqueue.Client.Errors.{Error}
use brqueue.Client.Framing.{Frame, message, failed, panicked, read_message, parse_request}
use brqueue.Client.Handlers.{
  Client, with_tasks, after_pop, pop, acknowledge_id, acknowledge, enqueue, to_priority,
}
use brqueue.Client.Connection.{Round, dropped, dispatch, respond, serve}

frame_cases :
    (f : Frame)
    → ((content : Bytes) × (f ≡ message content)) ⊎ ((x : Error) × (f ≡ failed x)) ⊎ (f ≡ panicked)
frame_cases (message content) = inl (content, refl)
frame_cases (failed x) = inr (inl (x, refl))
frame_cases panicked = inr (inr refl)

module _ {U : Type 0} ⦃e : Eq U⦄ (R : Runtime U Bytes) (lib : Library U) (id : U) where
  -- The lock on the outstanding tasks is sound, and if the task is outstanding, it is held as being
  -- processed.
  pub record Tracks (c : Client R) : Type 0 where
    pub sound : c.outstanding_tasks.poisoned ≡ false
    pub held : HashSet.contains c.outstanding_tasks.value id ≡ true → IsHeld R c.queue_server id

  -- In this round, the other connections do not acknowledge or fail the task, neither before it nor
  -- while a pop waits.
  pub record Keeps (round : Round R) : Type 0 where
    pub before : (s : QueueServer R) → IsHeld R s id → IsHeld R (round.interfere s) id
    pub meanwhile : All (λ w. IsHeld R (found R w) id) round.wakes

  enqueue-Tracks :
      (c : Client R) (fresh : U) (request : EnqueueRequest)
      → Tracks c
      → Tracks (enqueue R lib c fresh request).1
  unfolding enqueue
  enqueue-Tracks c fresh request t = record {
    sound = t.sound;
    held = λ h.
        enqueue-IsHeld R id fresh c.queue_server request.message
          (to_priority R lib request.priority) request.required_capabilities (t.held h);
  }

  removed-Tracks :
      (c : Client R) (other : U)
      → Tracks c
      → let t = (Operations.acknowledge R c.queue_server other).1 in
        Tracks (with_tasks R (record c { queue_server = t }) (λ tasks. HashSet.remove tasks other))
  removed-Tracks c other t = rw t.sound (record {
    sound = refl;
    held = λ h.
        let left = HashSet.contains-remove c.outstanding_tasks.value other id in
        elim (Bool-cases (other == id)) [
          | inl same ↦ absurd (ground (arith, left))
          | inr differs ↦
              acknowledge-IsHeld R id other c.queue_server differs (t.held (ground (arith, left)))
        ];
  })

  inserted-Tracks :
      (c : Client R) (other : U)
      → Tracks c
      → IsHeld R c.queue_server other
      → Tracks (with_tasks R c (λ tasks. HashSet.insert tasks other))
  inserted-Tracks c other t new = rw t.sound (record {
    sound = refl;
    held = λ h.
        let put = HashSet.contains-insert c.outstanding_tasks.value other id in
        elim (Bool-cases (other == id)) [
          | inl same ↦
              (let eq : other ≡ id = ground arith in subst (IsHeld R c.queue_server) eq new)
          | inr differs ↦ t.held (ground (arith, put))
        ];
  })

  acknowledge_id-Tracks :
      (c : Client R) (r : Result String U) → Tracks c → Tracks (acknowledge_id R lib c r).1
  unfolding acknowledge_id
  acknowledge_id-Tracks c (err x) t = t
  acknowledge_id-Tracks c (ok uuid) t =
      elim (Result-cases (Operations.acknowledge R c.queue_server uuid).0) [
        | inl (u, q) ↦ rw (q, acknowledge_id) (removed-Tracks c uuid t)
        | inr (x, q) ↦ rw (q, acknowledge_id, acknowledge-same R c.queue_server uuid x q) t
      ]

  after_pop-Tracks :
      (c : Client R) (r : Option (Result Errors.Error (Option (QueueItem U Bytes))))
      → Tracks c
      → ((item : QueueItem U Bytes) → r ≡ some (ok (some item)) → IsHeld R c.queue_server item.id)
      → Tracks (after_pop R lib c r).1
  unfolding after_pop
  after_pop-Tracks c none t h = t
  after_pop-Tracks c (some (err x)) t h = t
  after_pop-Tracks c (some (ok none)) t h = t
  after_pop-Tracks c (some (ok (some item))) t h = inserted-Tracks c item.id t (h item refl)

  pop-Tracks :
      (c : Client R) (request : PopRequest) (wakes : List (Wake R))
      → Tracks c
      → All (λ w. IsHeld R (found R w) id) wakes
      → Tracks (pop R lib c request wakes).1
  unfolding pop
  pop-Tracks c request wakes t k =
      let wait = request.wait_for_message in
      let capabilities = request.available_capabilities in
      let (r, s) = Operations.pop R c.queue_server capabilities wait wakes in
      after_pop-Tracks (record c { queue_server = s }) r
        (record {
          sound = t.sound;
          held = λ h. pop-IsHeld R id capabilities wait c.queue_server wakes (t.held h) k;
        })
        (λ item h. pop-found R capabilities wait c.queue_server wakes item h)

  dispatch-Tracks :
      (c : Client R) (round : Round R) (m : RequestWrapper)
      → Tracks c
      → All (λ w. IsHeld R (found R w) id) round.wakes
      → Tracks (dispatch R lib c round m).1
  unfolding dispatch acknowledge
  dispatch-Tracks c round m t k = elim (Bool-cases (RequestWrapper.has_enqueue m)) [
    | inl a ↦ rw (a, dispatch) (enqueue-Tracks c round.fresh (RequestWrapper.get_enqueue m) t)
    | inr a ↦ elim (Bool-cases (RequestWrapper.has_acknowledge m)) [
      | inl b ↦
          rw (a, b, dispatch)
            (acknowledge_id-Tracks c (lib.parse_str (RequestWrapper.get_acknowledge m).id) t)
      | inr b ↦ elim (Bool-cases (RequestWrapper.has_pop m)) [
        | inl d ↦ rw (a, b, d, dispatch) (pop-Tracks c (RequestWrapper.get_pop m) round.wakes t k)
        | inr d ↦ rw (a, b, d, dispatch) t
      ]
    ]
  ]

  -- The lock on the outstanding tasks of a connection is sound, a task is held as being processed if
  -- it is outstanding, and the other connections keep it held, before each round and whenever a
  -- pop that waits is woken. Then however the connection is served, with its own requests to
  -- enqueue, to pop and to acknowledge and their errors, it either ends as dropped, or the task is
  -- still held if it is outstanding. So it is also held after a message that does not parse, or a
  -- panic, has ended the connection.
  pub serve-Tracks :
      (rounds : List (Round R)) (c : Client R) (s : TcpStream)
      → Tracks c
      → All Keeps rounds
      → ((serve R lib c s rounds).0 ≡ dropped) ⊎ Tracks (serve R lib c s rounds).1
  unfolding serve
  serve-Tracks [] c s t k = inr t
  serve-Tracks (round ∷ rounds) c s t (now, later) =
      let d = record c { queue_server = round.interfere c.queue_server } in
      let tracked : Tracks d = record {
        sound = t.sound;
        held = λ h. now.before c.queue_server (t.held h);
      } in
      elim (frame_cases (read_message lib s).0) [
        | inr (inl (x, q)) ↦ rw (q, serve) (inl refl)
        | inr (inr q) ↦ rw (q, serve) (inr tracked)
        | inl (content, q) ↦ elim (Result-cases (parse_request lib content)) [
          | inr (x, p) ↦ rw (q, p, serve) (inr tracked)
          | inl (m, p) ↦
              let next = dispatch-Tracks d round m tracked now.meanwhile in
              elim (Option-cases (dispatch R lib d round m).0) [
                | inl k ↦ rw (q, p, k, serve) (inr next)
                | inr (r, k) ↦
                    rw (q, p, k, serve)
                      (serve-Tracks rounds (dispatch R lib d round m).1
                        (respond R lib (read_message lib s).1 m.ref_id r) next later)
              ]
        ]
      ]
