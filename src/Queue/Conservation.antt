-- ===== src/Queue/Conservation.antt =====
-- Which items a pop of src/queue.rs takes, keeps and loses.
use mathlib.Core.List.{Perm, perm_middle, perm_append_comm}
use mathlib.Core.List.Perm
use brqueue.Base.{
  ◌≡◌, refl, ap, subst, ◌⊎◌, inl, inr, ◌↔◌, true, none, some, List, [], ◌∷◌, ◌++◌, ok, Bool-cases,
}
use brqueue.Channel.{Channel}
use brqueue.Models.Tags.{Tags}
use brqueue.Models.QueueItem
use brqueue.Models.QueueItem.{QueueItem}
use brqueue.Queue.{Queue, pop}
use brqueue.Queue.Order.{AllRejected, pop-found, pop-none}

module _ {U T : Type 0} where
  -- The oldest item of a list that the capabilities can handle, with what stands round it.
  pub record FirstMatch (capabilities : Tags) (items : List (QueueItem U T)) : Type 0 where
    pub skipped : List (QueueItem U T)
    pub item : QueueItem U T
    pub rest : List (QueueItem U T)
    pub split : items ≡ skipped ++ item ∷ rest
    pub rejected : AllRejected capabilities skipped
    pub fits : QueueItem.can_be_handled_by item capabilities ≡ true

  find_match :
      (capabilities : Tags) (items : List (QueueItem U T))
      → FirstMatch capabilities items ⊎ AllRejected capabilities items
  find_match capabilities [] = inr tt
  find_match capabilities (x ∷ items) =
      elim (Bool-cases (QueueItem.can_be_handled_by x capabilities)) [
        | inl fits ↦ inl (record {
          skipped = [];
          item = x;
          rest = items;
          split = refl;
          rejected = tt;
          fits = fits;
        })
        | inr rejects ↦ elim (find_match capabilities items) [
          | inl m ↦ inl (record {
            skipped = x ∷ m.skipped;
            item = m.item;
            rest = m.rest;
            split = ap (◌∷◌ x) m.split;
            rejected = (rejects, m.rejected);
            fits = m.fits;
          })
          | inr all ↦ inr (rejects, all)
        ]
      ]

module _ {U T : Type 0} (C : Channel (QueueItem U T)) where
  -- A pop that returns an item loses nothing: the item was in the queue, it can be handled with the
  -- capabilities of the caller, and the queue keeps all the other items, as often as it had them.
  pop-perm :
      (q : Queue C) (capabilities : Tags) (item : QueueItem U T)
      → (pop C q capabilities).0 ≡ ok (some item)
      → (QueueItem.can_be_handled_by item capabilities ≡ true)
        × Perm (C.contents q) (item ∷ C.contents (pop C q capabilities).1)
  pop-perm q capabilities item h = elim (find_match capabilities (C.contents q)) [
    | inl m ↦
        let (e, c) = pop-found C q capabilities m.skipped m.item m.rest m.split m.rejected m.fits in
        let same : m.item ≡ item = cc in
        (
          subst (λ x. QueueItem.can_be_handled_by x capabilities ≡ true) same m.fits,
          rw (m.split, c, ← same)
              (Perm.trans (perm_middle m.skipped m.rest)
                (Perm.cons m.item (perm_append_comm m.skipped m.rest))),
        )
    | inr rejected ↦ let (e, c) = pop-none C q capabilities rejected in cc
  ]

  -- `pop` returns nothing exactly when the queue holds no item that the capabilities can handle.
  pop-none_iff :
      (q : Queue C) (capabilities : Tags)
      → ((pop C q capabilities).0 ≡ ok none) ↔ AllRejected capabilities (C.contents q)
  pop-none_iff q capabilities = (
    λ h. elim (find_match capabilities (C.contents q)) [
      | inl m ↦
          let (e, c) =
            pop-found C q capabilities m.skipped m.item m.rest m.split m.rejected m.fits in
          cc
      | inr rejected ↦ rejected
    ],
    λ rejected. (pop-none C q capabilities rejected).0,
  )

  -- So a pop either takes the oldest item that fits or empties the queue.
  pub pop-cases :
      (q : Queue C) (capabilities : Tags)
      → ((item : QueueItem U T) × ((pop C q capabilities).0 ≡ ok (some item))
          × (QueueItem.can_be_handled_by item capabilities ≡ true)
          × Perm (C.contents q) (item ∷ C.contents (pop C q capabilities).1))
        ⊎ (((pop C q capabilities).0 ≡ ok none)
            × AllRejected capabilities (C.contents q)
            × (C.contents (pop C q capabilities).1 ≡ []))
  pop-cases q capabilities = elim (find_match capabilities (C.contents q)) [
    | inl m ↦
        let (e, c) = pop-found C q capabilities m.skipped m.item m.rest m.split m.rejected m.fits in
        inl (m.item, e, m.fits, (pop-perm q capabilities m.item e).1)
    | inr rejected ↦ let (e, c) = pop-none C q capabilities rejected in inr (e, rejected, c)
  ]
