-- ===== src/FileManager/Rewriting.antt =====
-- What the loops of `run_garbage_collection` in src/internal_queue_file_manager.rs write, on a file
-- system without errors.
use brqueue.Base.{
  ◌≡◌, refl, sym, ap, subst, ◌∙◌, String, some, List, [], ◌∷◌, ◌++◌, append_assoc, append-nil, ok,
  err, ok-injective, Result, Result-cases, inl, inr, arith, string_eq,
}
use brqueue.Std.Fs.{Disk, Bytes, no_faults}
use brqueue.Std.HashMap
use brqueue.Std.BufWriter
use brqueue.Std.BufWriter.{BufWriter}
use brqueue.Std.BufWriter.Writes.{
  Written, Written-trans, get-Written, flush-Written, flush-eq, write-Kept,
}
use brqueue.FileItemReader.{Codec, serialize_items}
use brqueue.FileManager.{Error, failed_to_serialize_work_item}
use brqueue.FileManager.Access.{io}
use brqueue.FileManager.Collection.{write_items, write_and_flush}

-- As `Stored`, for the errors of the file manager.
pub record Rewritten (path : String) (disk : Disk) (whole : Bytes)
    (r : Result Error (Unit {0}) × BufWriter × Disk) : Type 0 where
  pub step : r ≡ (ok tt, record { path = path; buffer = [] }, r.2)
  pub written : Written path disk whole r.2

write_items-cons :
    {X : Type 0} (codec : Codec X) (x : X) (xs : List X) (first : Bytes) (w changed : BufWriter)
    (disk d : Disk)
    → codec.serialize x ≡ ok first
    → BufWriter.write no_faults w disk first ≡ (ok tt, changed, d)
    → write_items no_faults codec (x ∷ xs) w disk ≡ write_items no_faults codec xs changed d
unfolding write_items
write_items-cons codec x xs first w changed disk d q h =
    rw (write_items, q)
      (ap
        (λ r. elim r.0 [
          | err e ↦ (err (failed_to_serialize_work_item e.text), r.1, r.2)
          | ok u ↦ write_items no_faults codec xs r.1 r.2
        ])
        h)

write_and_flush-cons :
    {X : Type 0} (codec : Codec X) (x : X) (xs : List X) (first : Bytes) (w changed : BufWriter)
    (disk d : Disk)
    → codec.serialize x ≡ ok first
    → BufWriter.write no_faults w disk first ≡ (ok tt, changed, d)
    → write_and_flush no_faults codec (x ∷ xs) w disk ≡ write_and_flush no_faults codec xs changed d
unfolding write_and_flush
write_and_flush-cons codec x xs first w changed disk d q h =
    ap (λ r. elim r.0 [ err e ↦ (err e, r.1, r.2) | ok u ↦ io (BufWriter.flush no_faults r.1 r.2) ])
      (write_items-cons codec x xs first w changed disk d q h)

-- The serialized items come after the bytes that the file and its writer hold.
pub write_and_flush-Rewritten :
    {X : Type 0} (codec : Codec X) (path : String) (xs : List X) (bytes buffer : Bytes)
    (disk : Disk) (old : Bytes)
    → serialize_items codec xs ≡ ok bytes
    → HashMap.get disk path ≡ some old
    → Rewritten path disk
        (old ++ (buffer ++ bytes))
        (write_and_flush no_faults codec xs (record { path = path; buffer = buffer }) disk)
unfolding write_and_flush write_items serialize_items
write_and_flush-Rewritten codec path [] bytes buffer disk old h there =
    let w : BufWriter = record { path = path; buffer = buffer } in
    let same : buffer ≡ buffer ++ bytes =
      sym (append-nil buffer) ∙ ap (◌++◌ buffer) (ok-injective h) in
    rw (flush-eq path buffer disk) (record {
      step = refl;
      written =
          subst (λ z. Written path disk (old ++ z) (BufWriter.flush no_faults w disk).2) same
            (flush-Written path buffer disk old there);
    })
write_and_flush-Rewritten codec path (x ∷ xs) bytes buffer disk old h there =
    elim (Result-cases (codec.serialize x)) [
      | inr (e, q) ↦ ground arith
      | inl (first, q) ↦ elim (Result-cases (serialize_items codec xs)) [
        | inr (e, p) ↦ ground arith
        | inl (others, p) ↦
            let same : bytes ≡ first ++ others = ground arith in
            let w : BufWriter = record { path = path; buffer = buffer } in
            let d = (BufWriter.write no_faults w disk first).2 in
            let k = write-Kept path buffer disk old first there in
            let rest =
              write_and_flush-Rewritten codec path xs others k.buffer d k.stored p
                (get-Written path disk d k.stored k.written) in
            let t =
              (write_and_flush no_faults codec xs (record { path = path; buffer = k.buffer })
                d).2 in
            let whole : k.stored ++ (k.buffer ++ others) ≡ old ++ (buffer ++ bytes) =
              sym (append_assoc k.stored k.buffer others)
              ∙ ap (λ z. z ++ others) k.together
              ∙ append_assoc old (buffer ++ first) others
              ∙ ap (◌++◌ old) (append_assoc buffer first others)
              ∙ ap (λ z. old ++ (buffer ++ z)) (sym same) in
            rw (write_and_flush-cons codec x xs first w _ disk d q k.step) (record {
              step = rest.step;
              written =
                  Written-trans path disk d _ k.stored (old ++ (buffer ++ bytes)) k.written
                    (subst (λ z. Written path d z t) whole rest.written);
            })
      ]
    ]
