-- ===== src/QueueServer/Places.antt =====
-- Where the items of a queue server of src/queue_server.rs are, by their identifiers.
use mathlib.Core.List.{map, Mem, mem-cons_self, mem-cons_of_mem}
use mathlib.Core.List.Perm
use brqueue.Base.{
  ◌≡◌, refl, sym, ap, subst, inl, inr, true, none, some, List, [], ◌∷◌, ◌++◌, Eq, ◌==◌, arith,
  Bool-cases, Result, ok, err, ok-injective, String,
}
use brqueue.Base.Permutations.{
  Within, Within-of_perm, Within-refl, Within-right, Within-trans, Within-cons,
}
use brqueue.Std.HashMap
use brqueue.Std.HashMap.{HashMap}
use brqueue.Models.QueueItem.{QueueItem}
use brqueue.QueueServer.Manager.{InternalQueueManager}
use brqueue.QueueServer.Manager.Priorities.{high_items, low_items}
use brqueue.QueueServer.Runtime.{Runtime}
use brqueue.FileManager
use brqueue.Queue
use brqueue.QueueServer.Manager
use brqueue.QueueServer.Operations.{QueueServer, new_with_filename, start}

module _ {A B : Type 0} where
  pub map_append : (f : A → B) (xs ys : List A) → map f (xs ++ ys) ≡ map f xs ++ map f ys
  map_append f [] ys = refl
  map_append f (x ∷ xs) ys = ap (◌∷◌ (f x)) (map_append f xs ys)

module _ {K V : Type 0} ⦃e : Eq K⦄ where
  abbrev pub keys : HashMap K V → List K
  keys m = map (λ entry. entry.0) m

  pub keys-insert :
      (m : HashMap K V) (k : K) (v : V) → Within (keys (HashMap.insert m k v)) (k ∷ keys m)
  unfolding HashMap.insert
  keys-insert [] k v = Within-refl (k ∷ [])
  keys-insert ((j, w) ∷ m) k v = elim (Bool-cases (j == k)) [
    | inl same ↦ rw same ((j ∷ [], Perm.swap k j (keys m)))
    | inr other ↦
        rw other (
          Within-trans (Within-cons j (keys-insert m k v))
            (Within-of_perm (Perm.swap k j (keys m))))
  ]

  pub keys-remove : (m : HashMap K V) (k : K) → Within (keys (HashMap.remove m k)) (keys m)
  unfolding HashMap.remove
  keys-remove [] k = Within-refl []
  keys-remove ((j, w) ∷ m) k = elim (Bool-cases (j == k)) [
    | inl same ↦ rw same (Within-trans (keys-remove m k) (Within-right (j ∷ []) (keys m)))
    | inr other ↦ rw other (Within-cons j (keys-remove m k))
  ]

  -- The key of an entry is removed with it.
  pub keys-remove_found :
      (m : HashMap K V) (k : K) (v : V)
      → HashMap.get m k ≡ some v
      → Within (k ∷ keys (HashMap.remove m k)) (keys m)
  unfolding HashMap.remove HashMap.get
  keys-remove_found [] k v h = cc
  keys-remove_found ((j, w) ∷ m) k v h = elim (Bool-cases (j == k)) [
    | inl same ↦
        let here : j ≡ k = ground arith in rw (same, here) (Within-cons k (keys-remove m k))
    | inr other ↦
        let there : HashMap.get m k ≡ some v = rw other at h in
        rw other (
          Within-trans (Within-of_perm (Perm.swap j k (keys (HashMap.remove m k))))
            (Within-cons j (keys-remove_found m k v there)))
  ]

  pub get-none : (m : HashMap K V) (k : K) → ¬ Mem k (keys m) → HashMap.get m k ≡ none
  unfolding HashMap.get
  get-none [] k absent = refl
  get-none ((j, w) ∷ m) k absent = elim (Bool-cases (j == k)) [
    | inl same ↦
        let here : j ≡ k = ground arith in
        absurd (absent (subst (λ i. Mem k (i ∷ keys m)) (sym here) mem-cons_self))
    | inr other ↦ rw other (get-none m k (λ n. absent (mem-cons_of_mem j n)))
  ]

module _ {U T : Type 0} ⦃e : Eq U⦄ (R : Runtime U T) where
  abbrev pub names : List (QueueItem U T) → List U
  names items = map (λ item. item.id) items

  abbrev pub queued_names : InternalQueueManager R.channel → List U
  queued_names m = names (high_items R.channel m) ++ names (low_items R.channel m)

  -- The identifiers of the items in the queues, and those under which items are being processed.
  abbrev pub places : QueueServer R → List U
  places s = queued_names s.queue ++ keys s.processing.value

  start-places :
      (r : Result FileManager.Error R.storage.State) (s : QueueServer R)
      → start R r ≡ ok s
      → places s ≡ []
  unfolding start Manager.new Queue.new
  start-places (err x) s h = cc
  start-places (ok manager) s h = rw (sym (ok-injective h), R.channel.contents-unbounded) refl

  pub new_with_filename-places :
      (filename : String) (s : QueueServer R) → new_with_filename R filename ≡ ok s → places s ≡ []
  unfolding new_with_filename
  new_with_filename-places filename s h = start-places (R.storage.new filename true) s h
