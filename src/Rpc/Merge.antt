-- ===== src/Rpc/Merge.antt =====
-- The loop of `merge_from` in src/rpc/queue.rs, which all messages share: read a tag, and then the
-- field that it announces, until the stream ends.
use brqueue.Base.{
  ℕ, zero, suc, ◌<◌, ◌≤◌, String, ◌≡◌, refl, subst, sym, Bool, true, false, List, [], ◌∷◌, ◌++◌,
  Result, ok, err, length, if◌then◌else◌, arith, Result-cases, inl, inr,
}
use brqueue.Rpc.Runtime.{Wire, WireType, Read}

-- What a message does with a field: its number, its wire type and the stream after its tag.
abbrev pub Step : Type 0 → Type 0 → Type 0
Step B M = M → ℕ → WireType → List B → Read B M

unfoldable pub Shrinks : {B M : Type 0} → Step B M → Type 0
Shrinks {B} {M} step =
    (m : M) (n : ℕ) (t : WireType) (bytes : List B) (changed : M) (rest : List B)
    → step m n t bytes ≡ ok (changed, rest)
    → length rest ≤ length bytes

module _ {B M : Type 0} (wire : Wire B) where
  -- The source has no fuel, and as much as the stream has bytes is enough: a field takes at least one.
  unfoldable pub merge_loop : Step B M → ℕ → M → List B → Result String M
  merge_loop step fuel m [] = ok m
  merge_loop step zero m (b ∷ bytes) = err "out of fuel"
  merge_loop step (suc fuel) m (b ∷ bytes) = elim (wire.read_tag_unpack (b ∷ bytes)) [
    | err e ↦ err e
    | ok (n, t, after_tag) ↦ elim (step m n t after_tag) [
      | err e ↦ err e
      | ok (changed, rest) ↦ merge_loop step fuel changed rest
    ]
  ]

  unfoldable pub merge_from : Step B M → M → List B → Result String M
  unfolding merge_loop
  merge_from step m bytes = merge_loop step (length bytes) m bytes

  -- A field that is read into the message.
  abbrev pub into : {A : Type 0} → (A → M) → Read B A → Read B M
  into f (ok (v, rest)) = ok (f v, rest)
  into f (err e) = err e

  abbrev pub skipped : M → Result String (List B) → Read B M
  skipped m (ok rest) = ok (m, rest)
  skipped m (err e) = err e

  -- A written field, read into the message, and then the rest of the stream.
  unfoldable pub IsField : Step B M → M → List B → M → Type 0
  IsField step m w changed =
      (rest : List B)
      → (n : ℕ) × (t : WireType) × (after_tag : List B) × (wire.read_tag_unpack (w ++ rest)
          ≡ ok (n, t, after_tag))
        × (step m n t after_tag ≡ ok (changed, rest))

  unfoldable pub Merges : Step B M → M → List B → M → Type 0
  Merges step m bytes r = (fuel : ℕ) → length bytes ≤ fuel → merge_loop step fuel m bytes ≡ ok r

  pub into-ok :
      {A : Type 0} (f : A → M) (r : Read B A) (changed : M) (rest : List B)
      → into f r ≡ ok (changed, rest)
      → (v : A) × (r ≡ ok (v, rest))
  into-ok f (ok (v, after)) changed rest h = (v, cc h)
  into-ok f (err e) changed rest h = cc h

  pub skipped-ok :
      (m : M) (r : Result String (List B)) (changed : M) (rest : List B)
      → skipped m r ≡ ok (changed, rest)
      → r ≡ ok rest
  skipped-ok m (ok after) changed rest h = cc h
  skipped-ok m (err e) changed rest h = cc h

  -- What a stream that is not empty does to a message in a turn of the loop.
  turn : Step B M → M → List B → Read B M
  turn step m bytes = elim (wire.read_tag_unpack bytes) [
    | err e ↦ err e
    | ok (n, t, after_tag) ↦ step m n t after_tag
  ]

  continue : Step B M → ℕ → Read B M → Result String M
  continue step fuel (err e) = err e
  continue step fuel (ok (changed, rest)) = merge_loop step fuel changed rest

  merge_loop-suc :
      (step : Step B M) (fuel : ℕ) (m : M) (b : B) (bytes : List B)
      → merge_loop step (suc fuel) m (b ∷ bytes) ≡ continue step fuel (turn step m (b ∷ bytes))
  unfolding merge_loop turn continue
  merge_loop-suc step fuel m b bytes = ground arith

  module _ (step : Step B M) (shrinks : Shrinks step) where
    turn-shrinks :
        (m : M) (bytes : List B) (changed : M) (rest : List B)
        → turn step m bytes ≡ ok (changed, rest)
        → length rest < length bytes
    unfolding turn Shrinks
    turn-shrinks m bytes changed rest h = elim (Result-cases (wire.read_tag_unpack bytes)) [
      | inr (e, q) ↦ cc (h, q)
      | inl ((n, t, after_tag), q) ↦
          let l = wire.length-read_tag_unpack bytes after_tag n t q in
          let k = shrinks m n t after_tag changed rest (rw (q, turn) at h) in omega (arith, l, k)
    ]

    -- With at least as much fuel as there are bytes, more fuel changes nothing.
    pub merge_loop-fuel :
        (fuel more : ℕ) (m : M) (bytes : List B)
        → length bytes ≤ fuel
        → fuel ≤ more
        → merge_loop step more m bytes ≡ merge_loop step fuel m bytes
    unfolding merge_loop continue
    merge_loop-fuel fuel more m [] h k = refl
    merge_loop-fuel zero more m (b ∷ bytes) h k = absurd (omega arith)
    merge_loop-fuel (suc fuel) zero m (b ∷ bytes) h k = absurd (omega arith)
    merge_loop-fuel (suc fuel) (suc more) m (b ∷ bytes) h k =
        rw (merge_loop-suc step fuel m b bytes, merge_loop-suc step more m b bytes)
          (elim (Result-cases (turn step m (b ∷ bytes))) [
            | inr (e, q) ↦ rw q refl
            | inl ((changed, rest), q) ↦
                let l = turn-shrinks m (b ∷ bytes) changed rest q in
                rw q (merge_loop-fuel fuel more changed rest (omega (arith, l)) (omega arith))
          ])

    field_loop :
        (fuel : ℕ) (m changed r : M) (bytes rest : List B)
        → turn step m bytes ≡ ok (changed, rest)
        → length bytes ≤ fuel
        → Merges step changed rest r
        → merge_loop step fuel m bytes ≡ ok r
    unfolding Merges continue
    field_loop fuel m changed r [] rest q h merges =
        let l = turn-shrinks m [] changed rest q in absurd (omega (arith, l))
    field_loop zero m changed r (b ∷ bytes) rest q h merges = absurd (omega arith)
    field_loop (suc fuel) m changed r (b ∷ bytes) rest q h merges =
        let l = turn-shrinks m (b ∷ bytes) changed rest q in
        rw (merge_loop-suc step fuel m b bytes, q) (merges fuel (omega (arith, l)))

    pub Merges-nil : (m : M) → Merges step m [] m
    unfolding Merges merge_loop
    Merges-nil m fuel h = refl

    pub Merges-field :
        (m changed r : M) (w rest : List B)
        → IsField step m w changed
        → Merges step changed rest r
        → Merges step m (w ++ rest) r
    unfolding Merges IsField continue turn
    Merges-field m changed r w rest field merges fuel h =
        let (n, t, after_tag, tag, read) = field rest in
        let q : turn step m (w ++ rest) ≡ ok (changed, rest) = rw (tag, turn) read in
        field_loop fuel m changed r (w ++ rest) rest q h merges

    -- A field that is only written if it does not have its default.
    pub Merges-optional :
        (absent : Bool) (m changed r : M) (w rest : List B)
        → (absent ≡ true → m ≡ changed)
        → (absent ≡ false → IsField step m w changed)
        → Merges step changed rest r
        → Merges step m ((if absent then [] else w) ++ rest) r
    Merges-optional true m changed r w rest same field merges =
        subst (λ z. Merges step z rest r) (sym (same refl)) merges
    Merges-optional false m changed r w rest same field merges =
        Merges-field m changed r w rest (field refl) merges
