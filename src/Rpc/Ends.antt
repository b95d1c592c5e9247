-- ===== src/Rpc/Ends.antt =====
-- How the loop of `merge_from` in src/rpc/queue.rs ends: the loop as the source has it, without fuel, as
-- a relation, and the loop with fuel beside it.
use brqueue.Base.{
  ℕ, zero, suc, ◌<◌, ◌≤◌, String, ◌≡◌, refl, subst, ◌↔◌, List, [], ◌∷◌, Result, ok, err, length,
  arith, Result-cases, inl, inr,
}
use brqueue.Rpc.Runtime.{Wire, WireType}
use brqueue.Rpc.Merge.{Step, Shrinks, merge_loop, merge_from, merge_loop-fuel}
use brqueue.Rpc.Messages.{
  default_authenticate_request, default_enqueue_request, default_pop_request,
  default_acknowledge_request,
}
use brqueue.Rpc.Requests.{
  authenticate_request_step, enqueue_request_step, pop_request_step, acknowledge_request_step,
}
use brqueue.Rpc.RequestCodec.{default_request_wrapper, request_wrapper_step, read_request}
use brqueue.Rpc.ReadBack.{
  authenticate_request_step-Shrinks, enqueue_request_step-Shrinks, pop_request_step-Shrinks,
  acknowledge_request_step-Shrinks,
}
use brqueue.Rpc.RequestReadBack.{request_wrapper_step-Shrinks}

module _ {B M : Type 0} (wire : Wire B) (step : Step B M) where
  -- `while !is.eof()?` ends after finitely many turns, with a message or with an error of a tag or of a
  -- field. There is no fuel, and a loop that does not get on is in no such relation to a result.
  pub data Ends : M → List B → Result String M → Type 0 where
    at_eof : {m : M} → Ends m [] (ok m)
    bad_tag :
        {m : M} {b : B} {bytes : List B} {e : String}
        → wire.read_tag_unpack (b ∷ bytes) ≡ err e
        → Ends m (b ∷ bytes) (err e)
    bad_field :
        {m : M} {b : B} {bytes after_tag : List B} {n : ℕ} {t : WireType} {e : String}
        → wire.read_tag_unpack (b ∷ bytes) ≡ ok (n, t, after_tag)
        → step m n t after_tag ≡ err e
        → Ends m (b ∷ bytes) (err e)
    field :
        {m changed : M} {b : B} {bytes after_tag rest : List B} {n : ℕ} {t : WireType}
        {r : Result String M}
        → wire.read_tag_unpack (b ∷ bytes) ≡ ok (n, t, after_tag)
        → step m n t after_tag ≡ ok (changed, rest)
        → Ends changed rest r
        → Ends m (b ∷ bytes) r

  module _ (shrinks : Shrinks step) where
    field-shrinks :
        (m changed : M) (bytes after_tag rest : List B) (n : ℕ) (t : WireType)
        → wire.read_tag_unpack bytes ≡ ok (n, t, after_tag)
        → step m n t after_tag ≡ ok (changed, rest)
        → length rest < length bytes
    unfolding Shrinks
    field-shrinks m changed bytes after_tag rest n t q h = omega (
      arith,
      wire.length-read_tag_unpack bytes after_tag n t q,
      shrinks m n t after_tag changed rest h,
    )

    merge_loop-Ends :
        (fuel : ℕ) (m : M) (bytes : List B)
        → length bytes ≤ fuel
        → Ends m bytes (merge_loop wire step fuel m bytes)
    unfolding merge_loop
    merge_loop-Ends fuel m [] h = at_eof
    merge_loop-Ends zero m (b ∷ bytes) h = absurd (omega arith)
    merge_loop-Ends (suc fuel) m (b ∷ bytes) h =
        elim (Result-cases (wire.read_tag_unpack (b ∷ bytes))) [
          | inr (e, q) ↦ rw (q, merge_loop) (bad_tag q)
          | inl ((n, t, after_tag), q) ↦ elim (Result-cases (step m n t after_tag)) [
            | inr (e, k) ↦ rw (q, k, merge_loop) (bad_field q k)
            | inl ((changed, rest), k) ↦
                let l = field-shrinks m changed (b ∷ bytes) after_tag rest n t q k in
                rw (q, k, merge_loop)
                  (field q k (merge_loop-Ends fuel changed rest (omega (arith, l))))
          ]
        ]

    Ends-merge_loop :
        (fuel : ℕ) (m : M) (bytes : List B) (r : Result String M)
        → length bytes ≤ fuel
        → Ends m bytes r
        → merge_loop wire step fuel m bytes ≡ r
    unfolding merge_loop
    Ends-merge_loop fuel m [] r h at_eof = refl
    Ends-merge_loop zero m (b ∷ bytes) r h ends = absurd (omega arith)
    Ends-merge_loop (suc fuel) m (b ∷ bytes) r h (bad_tag q) = rw (q, merge_loop) refl
    Ends-merge_loop (suc fuel) m (b ∷ bytes) r h (bad_field q k) = rw (q, k, merge_loop) refl
    Ends-merge_loop (suc fuel) m (b ∷ bytes) r h
          (field {changed = changed} {after_tag = after_tag} {rest = rest} {n = n} {t = t} q k
            ends) =
        let l = field-shrinks m changed (b ∷ bytes) after_tag rest n t q k in
        rw (q, k, merge_loop) (Ends-merge_loop fuel changed rest r (omega (arith, l)) ends)

  -- The loop over a stream: with this fuel it gives what it gives with the fuel of `merge_from`, and
  -- that is the one result with which the loop without fuel ends.
  abbrev pub IsTotal : M → List B → ℕ → Type 0
  IsTotal m bytes fuel =
      (merge_loop wire step fuel m bytes ≡ merge_from wire step m bytes)
      × ((r : Result String M) → Ends m bytes r ↔ (merge_from wire step m bytes ≡ r))

  merge_from-IsTotal :
      Shrinks step
      → (m : M) (bytes : List B) (fuel : ℕ) → length bytes ≤ fuel
      → IsTotal m bytes fuel
  unfolding merge_from
  merge_from-IsTotal shrinks m bytes fuel h = (
    merge_loop-fuel wire step shrinks (length bytes) fuel m bytes (omega arith) h,
    λ r. (
      λ ends. Ends-merge_loop shrinks (length bytes) m bytes r (omega arith) ends,
      λ same.
          subst (Ends m bytes) same (merge_loop-Ends shrinks (length bytes) m bytes (omega arith)),
    ),
  )

module _ {B : Type 0} (wire : Wire B) where
  -- Reading a request ends, and so does reading the message that is nested in it, of each of the four
  -- kinds. On any stream, the loop of the source, which has no fuel, ends after finitely many turns,
  -- and the result of the model's loop is the one result it ends with; that loop gives the same
  -- with fuel for as many fields as the stream has bytes, and with any more.
  pub read_request-IsTotal :
      (bytes : List B) (fuel : ℕ)
      → length bytes ≤ fuel
      → IsTotal wire (request_wrapper_step wire) default_request_wrapper bytes fuel
        × (merge_from wire (request_wrapper_step wire) default_request_wrapper bytes
            ≡ read_request wire bytes)
        × IsTotal wire (enqueue_request_step wire) default_enqueue_request bytes fuel
        × IsTotal wire (pop_request_step wire) default_pop_request bytes fuel
        × IsTotal wire (acknowledge_request_step wire) default_acknowledge_request bytes fuel
        × IsTotal wire (authenticate_request_step wire) default_authenticate_request bytes fuel
  unfolding read_request
  read_request-IsTotal bytes fuel h = (
    merge_from-IsTotal wire (request_wrapper_step wire) (request_wrapper_step-Shrinks wire) _ bytes
        fuel h,
    refl,
    merge_from-IsTotal wire (enqueue_request_step wire) (enqueue_request_step-Shrinks wire) _ bytes
        fuel h,
    merge_from-IsTotal wire (pop_request_step wire) (pop_request_step-Shrinks wire) _ bytes fuel h,
    merge_from-IsTotal wire (acknowledge_request_step wire) (acknowledge_request_step-Shrinks wire)
        _ bytes fuel h,
    merge_from-IsTotal wire (authenticate_request_step wire)
        (authenticate_request_step-Shrinks wire) _ bytes fuel h,
  )
