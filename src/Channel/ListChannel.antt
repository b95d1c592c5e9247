-- ===== src/Channel/ListChannel.antt =====
-- A list as a channel: a value that meets the assumptions on crossbeam's unbounded channel.
use brqueue.Base.{◌≡◌, refl, Option, none, some, List, [], ◌∷◌, ◌++◌}
use brqueue.Channel.{Channel}

abbrev pub receive : {A : Type 0} → List A → Option (A × List A)
receive [] = none
receive (a ∷ r) = some (a, r)

pub receive-nil : {A : Type 0} (s : List A) → s ≡ [] → receive s ≡ none
receive-nil [] h = refl
receive-nil (a ∷ r) h = cc

pub receive-cons :
    {A : Type 0} (s : List A) (a : A) (r : List A)
    → s ≡ a ∷ r
    → (t : List A) × (receive s ≡ some (a, t)) × (t ≡ r)
receive-cons [] a r h = cc
receive-cons (b ∷ t) a r h = (t, cc, cc)

abbrev pub list_channel : (A : Type 0) → Channel A
list_channel A = record {
  State = List A;
  unbounded = [];
  send = λ s a. some (s ++ a ∷ []);
  try_recv = receive;
  contents = λ s. s;
  contents-unbounded = refl;
  send_lem = λ s a. (s ++ a ∷ [], refl, refl);
  try_recv-nil = receive-nil;
  try_recv-cons = receive-cons;
}
