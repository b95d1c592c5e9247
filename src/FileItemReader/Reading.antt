-- ===== src/FileItemReader/Reading.antt =====
-- What src/file_item_reader.rs reads of a file of items.
use brqueue.Base.{
  ℕ, zero, suc, ◌<◌, ◌≡◌, refl, ap, ◌∙◌, sym, List, [], ◌∷◌, ◌++◌, append_assoc, append-nil, Result,
  err, String, ok, ok-injective, Result-cases, inl, inr, length, arith,
}
use brqueue.Std.Fs.{Bytes}
use brqueue.FileItemReader.{Codec, next, collect_loop, collect, serialize_items}

module _ {T : Type 0} (codec : Codec T) where
  loop-fuel :
      (fuel more : ℕ) (bytes : Bytes)
      → length bytes < fuel
      → length bytes < more
      → collect_loop codec fuel bytes ≡ collect_loop codec more bytes
  unfolding collect_loop next
  loop-fuel zero more bytes h k = absurd (omega arith)
  loop-fuel (suc fuel) zero bytes h k = absurd (omega arith)
  loop-fuel (suc fuel) (suc more) bytes h k = elim (Result-cases (codec.deserialize_from bytes)) [
    | inr (e, q) ↦ rw (q, collect_loop, next) refl
    | inl ((x, rest), q) ↦
        let l = codec.length-deserialize x bytes rest q in
        rw (q, collect_loop, next)
          (ap (◌∷◌ x) (loop-fuel fuel more rest (omega (arith, l)) (omega (arith, l))))
  ]

  -- Reading a file does not run out of fuel: with more fuel than bytes, more changes nothing.
  collect-fuel :
      (fuel : ℕ) (bytes : Bytes)
      → length bytes < fuel
      → collect_loop codec fuel bytes ≡ collect codec bytes
  unfolding collect
  collect-fuel fuel bytes h = loop-fuel fuel (suc (length bytes)) bytes h (omega arith)

  collect-cons :
      (x : T) (bytes rest : Bytes)
      → codec.deserialize_from bytes ≡ ok (x, rest)
      → collect codec bytes ≡ x ∷ collect codec rest
  unfolding collect collect_loop next
  collect-cons x bytes rest h =
      let l = codec.length-deserialize x bytes rest h in
      rw (h, collect, collect_loop, next) (ap (◌∷◌ x) (collect-fuel (length bytes) rest l))

  -- Items that were written one after the other are read back in their order, and then what follows
  -- them in the file: if what follows cannot be read, exactly the items.
  pub collect-serialize_items :
      (items : List T) (bytes rest : Bytes)
      → serialize_items codec items ≡ ok bytes
      → collect codec (bytes ++ rest) ≡ items ++ collect codec rest
  unfolding serialize_items
  collect-serialize_items [] bytes rest h =
      ap (λ w. collect codec (w ++ rest)) (sym (ok-injective h))
  collect-serialize_items (item ∷ items) bytes rest h = elim (Result-cases (codec.serialize item)) [
    | inr (e, q) ↦ ground arith
    | inl (w, q) ↦ elim (Result-cases (serialize_items codec items)) [
      | inr (e, p) ↦ ground arith
      | inl (others, p) ↦
          let same : bytes ≡ w ++ others = ground arith in
          ap (λ z. collect codec (z ++ rest)) same
          ∙ ap (collect codec) (append_assoc w others rest)
          ∙ collect-cons item (w ++ (others ++ rest)) (others ++ rest)
              (codec.deserialize-serialize item w (others ++ rest) q)
          ∙ ap (◌∷◌ item) (collect-serialize_items items others rest p)
    ]
  ]

  deserialize_nothing :
      (r : Result String (T × Bytes)) → codec.deserialize_from [] ≡ r → collect codec [] ≡ []
  unfolding collect collect_loop next
  deserialize_nothing (err e) h = rw (collect, collect_loop, next, h) refl
  deserialize_nothing (ok (x, rest)) h =
      absurd (omega (arith, codec.length-deserialize x [] rest h))

  -- A file that was written whole is read back whole.
  pub collect-written :
      (items : List T) (bytes : Bytes)
      → serialize_items codec items ≡ ok bytes
      → collect codec bytes ≡ items
  collect-written items bytes h =
      ap (collect codec) (sym (append-nil bytes))
      ∙ collect-serialize_items items bytes [] h
      ∙ ap (◌++◌ items) (deserialize_nothing (codec.deserialize_from []) refl)
      ∙ append-nil items
