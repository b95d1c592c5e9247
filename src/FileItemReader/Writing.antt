-- ===== src/FileItemReader/Writing.antt =====
-- Items of src/file_item_reader.rs that are serialized one after the other.
use brqueue.Base.{
  ◌≡◌, refl, ap, ◌∙◌, Bool, List, [], ◌∷◌, ◌++◌, append_assoc, append-nil, Result-cases, ok,
  ok-injective, Bool-cases, inl, inr, filter, arith,
}
use brqueue.Std.Fs.{Bytes}
use brqueue.FileItemReader.{Codec, serialize_items}

pub serialize_items-append :
    {X : Type 0} (codec : Codec X) (xs ys : List X) (first second : Bytes)
    → serialize_items codec xs ≡ ok first
    → serialize_items codec ys ≡ ok second
    → serialize_items codec (xs ++ ys) ≡ ok (first ++ second)
unfolding serialize_items
serialize_items-append codec [] ys first second h q =
    q ∙ ap (λ z. ok (z ++ second)) (ok-injective h)
serialize_items-append codec (x ∷ xs) ys first second h q =
    elim (Result-cases (codec.serialize x)) [
      | inr (e, p) ↦ ground arith
      | inl (start, p) ↦ elim (Result-cases (serialize_items codec xs)) [
        | inr (e, r) ↦ ground arith
        | inl (others, r) ↦
            let rest = serialize_items-append codec xs ys others second r q in
            let same : first ≡ start ++ others = ground arith in
            rw (p, rest, same, append_assoc start others second) refl
      ]
    ]

pub serialize_items-snoc :
    {X : Type 0} (codec : Codec X) (xs : List X) (x : X) (bytes last : Bytes)
    → serialize_items codec xs ≡ ok bytes
    → codec.serialize x ≡ ok last
    → serialize_items codec (xs ++ x ∷ []) ≡ ok (bytes ++ last)
unfolding serialize_items
serialize_items-snoc codec xs x bytes last h q =
    serialize_items-append codec xs (x ∷ []) bytes last h
      (rw (serialize_items, q, append-nil last) refl)

-- Some of the items that can be serialized can be serialized.
pub serialize_items-filter :
    {X : Type 0} (codec : Codec X) (test : X → Bool) (xs : List X) (bytes : Bytes)
    → serialize_items codec xs ≡ ok bytes
    → (kept : Bytes) × (serialize_items codec (filter test xs) ≡ ok kept)
unfolding serialize_items
serialize_items-filter codec test [] bytes h = ([], refl)
serialize_items-filter codec test (x ∷ xs) bytes h = elim (Result-cases (codec.serialize x)) [
  | inr (e, p) ↦ ground arith
  | inl (first, p) ↦ elim (Result-cases (serialize_items codec xs)) [
    | inr (e, r) ↦ ground arith
    | inl (others, r) ↦
        let rest = serialize_items-filter codec test xs others r in
        elim (Bool-cases (test x)) [
          | inl q ↦ (first ++ rest.0, rw (q, p, rest.1) refl)
          | inr q ↦ (rest.0, rw q rest.1)
        ]
  ]
]
