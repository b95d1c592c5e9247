-- ===== src/QueueServer/Exclusive/AtMostOnce.antt =====
-- No two consumers of src/queue_server.rs have the same item at the same time.
use mathlib.Core.List.{perm_middle, perm_append_comm, Mem, Nodup, mem-append, Nodup-nil}
use mathlib.Core.List.Perm
use mathlib.Mathlib.Data.List.Nodup
use brqueue.Base.{
  String, ◌≡◌, ap, subst, ◌∙◌, inl, inr, none, some, List, [], ◌∷◌, ◌++◌, ok, append_assoc, Eq,
}
use brqueue.Base.Permutations.{
  pull_out, Within, Within-of_perm, Within-refl, Within-trans, Within-append, Within-Nodup,
}
use brqueue.Models.QueueItem.{QueueItem}
use brqueue.QueueServer.Runtime.{Runtime}
use brqueue.QueueServer.Operations.{QueueServer, pop_queue, new_with_filename}
use brqueue.QueueServer.WellFormed.{IsValid, enqueue-IsValid}
use brqueue.QueueServer.Delivery.{in_process}
use brqueue.QueueServer.Reach.{
  note_processing-IsValid, pop_queue-IsValid, acknowledge-IsValid, fail-IsValid,
  new_with_filename-IsValid,
}
use brqueue.QueueServer.Places.{
  map_append, keys, names, queued_names, places, new_with_filename-places, get-none,
}
use brqueue.QueueServer.Exclusive.{
  System, everything, found, Step, Reach, enqueues, takes, notes, acknowledges, fails, waits, here,
  next,
}
use brqueue.QueueServer.Exclusive.Moves.{
  pop_queue-Within, note_processing-Within, acknowledge-Within, enqueue-Within, fail-Within,
}

module _ {A : Type 0} where
  -- What is added to one part of a list comes out of the other.
  hand_over :
      (xs ys zs : List A) {ws : List A}
      → Within (xs ++ zs) ws
      → Within ((xs ++ ys) ++ zs) (ys ++ ws)
  hand_over xs ys zs w =
      Within-trans
        (rw (append_assoc xs ys zs, ← append_assoc ys xs zs, ← append_assoc xs ys zs)
          (Within-of_perm (Perm.append_right zs (perm_append_comm xs ys))))
        (Within-append (Within-refl ys) w)

module _ {U T : Type 0} ⦃e : Eq U⦄ (R : Runtime U T) where
  -- No identifier stands for two items, in the hands of a pop, in a queue or being processed.
  pub record IsExclusive (s : System R) : Type 0 where
    pub valid : IsValid R s.server
    pub distinct : Nodup (everything R s)

  names-append : (xs ys : List (QueueItem U T)) → names R (xs ++ ys) ≡ names R xs ++ names R ys
  names-append xs ys = map_append (λ x. x.id) xs ys

  Step-IsExclusive : {s t : System R} → Step R s t → IsExclusive s → IsExclusive t
  Step-IsExclusive {s} (enqueues id message priority capabilities handed fresh h) x = record {
    valid = enqueue-IsValid R s.server id message priority capabilities x.valid;
    distinct =
        Within-Nodup
          (rw (names-append handed s.hands) (
            Within-trans
              (hand_over (names R handed) (names R s.hands) _
                (enqueue-Within R s.server id message priority capabilities handed h))
              (Within-of_perm (perm_middle (names R s.hands) (places R s.server)))))
          (Nodup.cons fresh x.distinct);
  }
  Step-IsExclusive {s} (takes capabilities) x = record {
    valid = pop_queue-IsValid R s.server capabilities x.valid;
    distinct =
        let got = found R (pop_queue R s.server capabilities).0 in
        Within-Nodup
          (rw (names-append got s.hands) (
            hand_over (names R got) (names R s.hands) _ (pop_queue-Within R s.server capabilities)))
          x.distinct;
  }
  Step-IsExclusive {s} (notes before item after split) x = record {
    valid = note_processing-IsValid R (some (ok (some item)), s.server) x.valid;
    distinct =
        let nb = names R before in
        let na = names R after in
        Within-Nodup
          (rw (names-append before after) (
            Within-trans
              (Within-append (Within-refl (nb ++ na)) (note_processing-Within R s.server item))
              (Within-of_perm (Perm.symm (pull_out nb (item.id ∷ []) na (places R s.server))))))
          (subst (λ items. Nodup (items ++ places R s.server))
            (ap (names R) split ∙ names-append before (item ∷ after)) x.distinct);
  }
  Step-IsExclusive {s} (acknowledges id) x = record {
    valid = acknowledge-IsValid R s.server id x.valid;
    distinct =
        Within-Nodup
          (Within-append (Within-refl (names R s.hands)) (acknowledge-Within R s.server id))
          x.distinct;
  }
  Step-IsExclusive {s} (fails id handed h) x = record {
    valid = fail-IsValid R s.server id x.valid;
    distinct =
        Within-Nodup
          (rw (names-append handed s.hands) (
            hand_over (names R handed) (names R s.hands) _
              (fail-Within R s.server id handed (x.valid.keyed id) h)))
          x.distinct;
  }
  Step-IsExclusive (waits w) x = record {
    valid = record { sorted = x.valid.sorted; keyed = x.valid.keyed };
    distinct = x.distinct;
  }

  Reach-IsExclusive : {s t : System R} → IsExclusive s → Reach R s t → IsExclusive t
  Reach-IsExclusive x here = x
  Reach-IsExclusive x (next r step) = Step-IsExclusive step (Reach-IsExclusive x r)

  start-IsExclusive :
      (filename : String) (s : QueueServer R)
      → new_with_filename R filename ≡ ok s
      → IsExclusive (record { server = s; hands = [] })
  start-IsExclusive filename s h = record {
    valid = new_with_filename-IsValid R filename s h;
    distinct = rw (new_with_filename-places R filename s h) Nodup-nil;
  }

  -- However the calls of a new server interleave: if `enqueue` only draws identifiers that no item of
  -- the server has, the identifiers are all different of the items that pops have in hand, that stand
  -- in the two queues and that are being processed.
  pub reachable-exclusive :
      (filename : String) (s : QueueServer R) (t : System R)
      → new_with_filename R filename ≡ ok s
      → Reach R (record { server = s; hands = [] }) t
      → Nodup (names R t.hands ++ (queued_names R t.server.queue ++ keys t.server.processing.value))
  reachable-exclusive filename s t h r =
      (Reach-IsExclusive (start-IsExclusive filename s h) r).distinct

  -- However the calls of a new server interleave: if `enqueue` only draws identifiers that no item of
  -- the server has, an item that `pop_item` takes from the queues is in the hands of no other pop and
  -- is not being processed.
  pub pop_queue-exclusive :
      (filename : String) (s : QueueServer R) (t : System R)
      → new_with_filename R filename ≡ ok s
      → Reach R (record { server = s; hands = [] }) t
      → (capabilities : List String) (item : QueueItem U T)
      → (pop_queue R t.server capabilities).0 ≡ ok (some item)
      → (¬ Mem item.id (names R t.hands)) × (in_process R t.server item.id ≡ none)
  unfolding pop_queue
  pop_queue-exclusive filename s t h r capabilities item k =
      let u = (pop_queue R t.server capabilities).1 in
      let alone : ¬ Mem item.id (names R t.hands ++ places R u) = Nodup.not_mem (
        Within-Nodup
          (Within-trans (Within-of_perm (Perm.symm (perm_middle (names R t.hands) (places R u)))) (
            Within-append (Within-refl (names R t.hands)) (
              subst (λ f. Within (names R (found R f) ++ places R u) (places R t.server)) k
                (pop_queue-Within R t.server capabilities))))
          (reachable-exclusive filename s t h r)) in
      (
        λ m. alone (mem-append.1 ∣ inl m ∣₁),
        get-none t.server.processing.value item.id
            (λ m. alone (mem-append.1 ∣ inr (mem-append.1 ∣ inr m ∣₁) ∣₁)),
      )
