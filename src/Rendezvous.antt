-- ===== src/Rendezvous.antt =====
-- `bounded(0)` of the crate crossbeam, which the program calls and does not implement: a channel
-- that holds no message, so that a send succeeds only while a receiver is blocked in a receive.
pub mod ListRendezvous
use brqueue.Base.{ℕ, ◌+◌, ◌<◌, ◌≡◌, List, [], ◌∷◌, ◌++◌}

-- The result of `try_send`; an error gives the message back.
pub data TrySend (A : Type 0) : Type 0 where
  sent : TrySend A
  full : A → TrySend A
  disconnected : A → TrySend A

-- `ready` is the number of receivers that are blocked, and `handed` the messages that receivers
-- took, oldest first. The laws are the documented behaviour while both ends are alive.
pub record Rendezvous (A : Type 0) : Type 1 where
  pub State : Type 0
  pub bounded : State
  pub try_send : State → A → TrySend A × State
  pub ready : State → ℕ
  pub handed : State → List A
  pub ready-bounded : ready bounded ≡ 0
  pub try_send_full : (s : State) (a : A) → ready s ≡ 0 → try_send s a ≡ (full a, s)
  pub try_send_sent :
      (s : State) (a : A)
      → 0 < ready s
      → (t : State) × (try_send s a ≡ (sent, t))
        × (ready t + 1 ≡ ready s)
        × (handed t ≡ handed s ++ a ∷ [])
