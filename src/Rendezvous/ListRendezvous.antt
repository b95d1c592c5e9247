-- ===== src/Rendezvous/ListRendezvous.antt =====
-- A count of receivers and a list of messages as a rendezvous: a value that meets the assumptions.
use brqueue.Base.{ℕ, zero, suc, ◌+◌, ◌-◌, ◌<◌, ◌≡◌, refl, List, [], ◌∷◌, ◌++◌, arith}
use brqueue.Rendezvous.{Rendezvous, TrySend, sent, full}

pub record Meeting (A : Type 0) : Type 0 where
  pub receivers : ℕ
  pub taken : List A

abbrev offer : {A : Type 0} → ℕ → List A → A → TrySend A × Meeting A
offer zero taken a = (full a, record { receivers = 0; taken = taken })
offer (suc n) taken a = (sent, record { receivers = n; taken = taken ++ a ∷ [] })

abbrev pub meet : {A : Type 0} → Meeting A → A → TrySend A × Meeting A
meet m a = offer m.receivers m.taken a

pub meet-full : {A : Type 0} (m : Meeting A) (a : A) → m.receivers ≡ 0 → meet m a ≡ (full a, m)
meet-full m a h = ground arith

pub meet-sent :
    {A : Type 0} (m : Meeting A) (a : A)
    → 0 < m.receivers
    → (n : Meeting A) × (meet m a ≡ (sent, n))
      × (n.receivers + 1 ≡ m.receivers)
      × (n.taken ≡ m.taken ++ a ∷ [])
meet-sent m a h =
    let k : m.receivers ≡ suc (m.receivers - 1) = omega arith in
    (
      record { receivers = m.receivers - 1; taken = m.taken ++ a ∷ [] },
      ground arith,
      omega arith,
      refl,
    )

abbrev pub list_rendezvous : (A : Type 0) → Rendezvous A
list_rendezvous A = record {
  State = Meeting A;
  bounded = record { receivers = 0; taken = [] };
  try_send = meet;
  ready = λ m. m.receivers;
  handed = λ m. m.taken;
  ready-bounded = refl;
  try_send_full = meet-full;
  try_send_sent = meet-sent;
}
