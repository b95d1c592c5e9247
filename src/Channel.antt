-- ===== src/Channel.antt =====
-- The channels of the crate crossbeam, which the program calls and does not implement: an unbounded
-- channel whose two ends are both alive, and a channel of capacity 0.
pub mod ListChannel
use brqueue.Base.{ℕ, zero, suc, ◌≡◌, Option, none, some, List, [], ◌∷◌, ◌++◌}

-- `unbounded()`. `contents` are the messages that are sent and not yet received, oldest first.
-- Its laws are the documented behaviour of a channel that is not disconnected.
pub record Channel (A : Type 0) : Type 1 where
  pub State : Type 0
  pub unbounded : State
  pub send : State → A → Option State
  pub try_recv : State → Option (A × State)
  pub contents : State → List A
  pub contents-unbounded : contents unbounded ≡ []
  pub send_lem :
      (s : State) (a : A) → (t : State) × (send s a ≡ some t) × (contents t ≡ contents s ++ a ∷ [])
  pub try_recv-nil : (s : State) → contents s ≡ [] → try_recv s ≡ none
  pub try_recv-cons :
      (s : State) (a : A) (r : List A)
      → contents s ≡ a ∷ r
      → (t : State) × (try_recv s ≡ some (a, t)) × (contents t ≡ r)
