-- ===== src/Queue/Order.antt =====
-- The order in which items leave and stay in a queue of src/queue.rs.
use mathlib.Core.List.{append-nil, append_assoc}
use brqueue.Base.{
  ℕ, zero, suc, ◌<◌, ◌≡◌, refl, sym, ap, ◌∙◌, true, false, none, some, List, [], ◌∷◌, ◌++◌, ok,
  length, length-append, All, arith,
}
use brqueue.Channel.{Channel}
use brqueue.Models.Tags.{Tags}
use brqueue.Models.QueueItem
use brqueue.Models.QueueItem.{QueueItem}
use brqueue.Queue.{Queue, enqueue, sent, send_all, pop_loop, pop, try_iter, get_content}

-- No item of the list can be handled with the capabilities.
abbrev pub AllRejected : {U T : Type 0} → Tags → List (QueueItem U T) → Type 0
AllRejected capabilities = All (λ item. QueueItem.can_be_handled_by item capabilities ≡ false)

module _ {U T : Type 0} (C : Channel (QueueItem U T)) where
  -- An item that is enqueued goes to the back, and enqueueing does not fail.
  pub enqueue-contents :
      (q : Queue C) (item : QueueItem U T)
      → ((enqueue C q item).0 ≡ ok tt)
        × (C.contents (enqueue C q item).1 ≡ C.contents q ++ item ∷ [])
  unfolding enqueue
  enqueue-contents q item = let (r, e, c) = C.send_lem q item in (rw e refl, rw e c)

  send_all-contents :
      (q : Queue C) (items : List (QueueItem U T))
      → C.contents (send_all C q items) ≡ C.contents q ++ items
  unfolding send_all enqueue
  send_all-contents q [] = sym (append-nil (C.contents q))
  send_all-contents q (item ∷ items) =
      let (r, e, c) = C.send_lem q item in
      rw (e, sent)
        (send_all-contents r items ∙ rw c (append_assoc (C.contents q) (item ∷ []) items))

  pop_loop-found :
      (capabilities : Tags) (fuel : ℕ) (q : Queue C) (failures skipped : List (QueueItem U T))
      (item : QueueItem U T) (rest : List (QueueItem U T))
      → C.contents q ≡ skipped ++ item ∷ rest
      → AllRejected capabilities skipped
      → QueueItem.can_be_handled_by item capabilities ≡ true
      → length skipped < fuel
      → (r : Queue C) × (pop_loop C capabilities fuel q failures ≡ some (some item, r))
        × (C.contents r ≡ rest ++ (failures ++ skipped))
  unfolding pop_loop
  pop_loop-found capabilities zero q failures skipped item rest h rejected fits enough =
      absurd (omega arith)
  pop_loop-found capabilities (suc fuel) q failures [] item rest h rejected fits enough =
      let (r, e, c) = C.try_recv-cons q item rest h in
      (
        send_all C r failures,
        ground arith,
        rw (append-nil failures) (send_all-contents r failures ∙ ap (λ xs. xs ++ failures) c),
      )
  pop_loop-found capabilities (suc fuel) q failures (x ∷ skipped) item rest h rejected fits enough =
      let (r, e, c) = C.try_recv-cons q x (skipped ++ item ∷ rest) h in
      let (s, f, d) =
        pop_loop-found capabilities fuel r (failures ++ x ∷ []) skipped item rest c rejected.1 fits
          (omega arith) in
      (s, ground arith, d ∙ ap (λ xs. rest ++ xs) (append_assoc failures (x ∷ []) skipped))

  pop_loop-none :
      (capabilities : Tags) (fuel : ℕ) (q : Queue C) (failures items : List (QueueItem U T))
      → C.contents q ≡ items
      → AllRejected capabilities items
      → length items < fuel
      → (r : Queue C) × (pop_loop C capabilities fuel q failures ≡ some (none, r))
        × (C.contents r ≡ [])
  unfolding pop_loop
  pop_loop-none capabilities zero q failures items h rejected enough = absurd (omega arith)
  pop_loop-none capabilities (suc fuel) q failures [] h rejected enough =
      let e = C.try_recv-nil q h in (q, ground arith, h)
  pop_loop-none capabilities (suc fuel) q failures (x ∷ items) h rejected enough =
      let (r, e, c) = C.try_recv-cons q x items h in
      let (s, f, d) =
        pop_loop-none capabilities fuel r (failures ++ x ∷ []) items c rejected.1 (omega arith) in
      (s, ground arith, d)

  -- `pop` takes the oldest item that the capabilities can handle. The younger items move up, and
  -- the older ones, which they cannot handle, go to the back of the queue in their order.
  pub pop-found :
      (q : Queue C) (capabilities : Tags) (skipped : List (QueueItem U T)) (item : QueueItem U T)
      (rest : List (QueueItem U T))
      → C.contents q ≡ skipped ++ item ∷ rest
      → AllRejected capabilities skipped
      → QueueItem.can_be_handled_by item capabilities ≡ true
      → ((pop C q capabilities).0 ≡ ok (some item))
        × (C.contents (pop C q capabilities).1 ≡ rest ++ skipped)
  unfolding pop
  pop-found q capabilities skipped item rest h rejected fits =
      let (r, e, c) =
        pop_loop-found capabilities (suc (length (C.contents q))) q [] skipped item rest h rejected
          fits (omega (arith, ap length h, length-append skipped (item ∷ rest))) in
      (rw e refl, rw e c)

  -- When no item can be handled, `pop` returns nothing, and every item of the queue is lost.
  pub pop-none :
      (q : Queue C) (capabilities : Tags)
      → AllRejected capabilities (C.contents q)
      → ((pop C q capabilities).0 ≡ ok none) × (C.contents (pop C q capabilities).1 ≡ [])
  unfolding pop
  pop-none q capabilities rejected =
      let (r, e, c) =
        pop_loop-none capabilities (suc (length (C.contents q))) q [] (C.contents q) refl rejected
          (omega arith) in
      (rw e refl, rw e c)

  try_iter-contents :
      (fuel : ℕ) (q : Queue C) (items : List (QueueItem U T))
      → C.contents q ≡ items
      → length items < fuel
      → (r : Queue C) × (try_iter C fuel q ≡ some (items, r)) × (C.contents r ≡ [])
  unfolding try_iter
  try_iter-contents zero q items h enough = absurd (omega arith)
  try_iter-contents (suc fuel) q [] h enough = let e = C.try_recv-nil q h in (q, ground arith, h)
  try_iter-contents (suc fuel) q (x ∷ items) h enough =
      let (r, e, c) = C.try_recv-cons q x items h in
      let (s, f, d) = try_iter-contents fuel r items c (omega arith) in (s, ground arith, d)

  -- `get_content` returns the items of the queue, oldest first, and leaves the queue with the same
  -- items in the same order.
  get_content-contents :
      (q : Queue C)
      → ((get_content C q).0 ≡ ok (C.contents q)) × (C.contents (get_content C q).1 ≡ C.contents q)
  unfolding get_content
  get_content-contents q =
      let (r, e, c) =
        try_iter-contents (suc (length (C.contents q))) q (C.contents q) refl (omega arith) in
      (rw e refl, rw e (send_all-contents r (C.contents q) ∙ ap (λ xs. xs ++ C.contents q) c))
