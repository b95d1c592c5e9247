-- ===== src/Rpc/Fields.antt =====
-- Fields of every type that the code of src/rpc/queue.rs writes, read back into a message, and what a
-- read leaves of a stream.
use brqueue.Base.{
  ℕ, ◌<◌, ◌≤◌, ◌^◌, String, ◌≡◌, ap, ◌∙◌, subst, sym, Bool, true, false, Option, List, [], ◌∷◌,
  ◌++◌, ok, if◌then◌else◌, length, append_assoc, append-nil, arith, length-append,
}
use brqueue.Base.Int.{ℤ}
use brqueue.Std.Fs.{Bytes}
use brqueue.Rpc.Runtime.{
  Wire, WireType, varint, fixed64, length_delimited, start_group, end_group, fixed32, Read,
}
use brqueue.Rpc.Merge.{
  Step, Shrinks, into, skipped, into-ok, skipped-ok, IsField, Merges, Merges-field,
}
use brqueue.Rpc.Requests.{is_empty, is_empty_bytes, if_varint, write_strings}

module _ {B : Type 0} (wire : Wire B) where
  pub if_varint-ok :
      {A : Type 0} (t : WireType) (r : Read B A) (v : A) (rest : List B)
      → if_varint wire t r ≡ ok (v, rest)
      → r ≡ ok (v, rest)
  if_varint-ok varint r v rest h = h
  if_varint-ok fixed64 r v rest h = cc h
  if_varint-ok length_delimited r v rest h = cc h
  if_varint-ok start_group r v rest h = cc h
  if_varint-ok end_group r v rest h = cc h
  if_varint-ok fixed32 r v rest h = cc h

module _ {B M : Type 0} (wire : Wire B) where
  module _ (t : WireType) (bytes : List B) (changed : M) (rest : List B) where
    pub string-shrinks :
        (f : String → M)
        → into wire f (wire.read_string t bytes) ≡ ok (changed, rest)
        → length rest ≤ length bytes
    string-shrinks f h =
        let (v, q) = into-ok wire f (wire.read_string t bytes) changed rest h in
        wire.length-read_string t bytes rest v q

    pub bytes-shrinks :
        (f : Bytes → M)
        → into wire f (wire.read_bytes t bytes) ≡ ok (changed, rest)
        → length rest ≤ length bytes
    bytes-shrinks f h =
        let (v, q) = into-ok wire f (wire.read_bytes t bytes) changed rest h in
        wire.length-read_bytes t bytes rest v q

    pub strings-shrinks :
        (f : List String → M) (old : List String)
        → into wire f (wire.read_repeated_string old t bytes) ≡ ok (changed, rest)
        → length rest ≤ length bytes
    strings-shrinks f old h =
        let (v, q) = into-ok wire f (wire.read_repeated_string old t bytes) changed rest h in
        wire.length-read_repeated_string old v t bytes rest q

    pub enum-shrinks :
        {E : Type 0} (f : E → M) (from : ℤ → Option E) (old : E)
        → into wire f (wire.read_enum from old t bytes) ≡ ok (changed, rest)
        → length rest ≤ length bytes
    enum-shrinks f from old h =
        let (v, q) = into-ok wire f (wire.read_enum from old t bytes) changed rest h in
        wire.length-read_enum from old v t bytes rest q

    pub skipped-shrinks :
        (m : M) (n : ℕ)
        → skipped wire m (wire.skip_group n t bytes) ≡ ok (changed, rest)
        → length rest ≤ length bytes
    skipped-shrinks m n h =
        wire.length-skip_group n t bytes rest
          (skipped-ok wire m (wire.skip_group n t bytes) changed rest h)

  pub bool-shrinks :
      (f : Bool → M) (t : WireType) (bytes : List B) (changed : M) (rest : List B)
      → into wire f (if_varint wire t (wire.read_bool bytes)) ≡ ok (changed, rest)
      → length rest ≤ length bytes
  bool-shrinks f t bytes changed rest h =
      let (v, q) = into-ok wire f (if_varint wire t (wire.read_bool bytes)) changed rest h in
      wire.length-read_bool bytes rest v (if_varint-ok wire t (wire.read_bool bytes) v rest q)

  module _ (step : Step B M) (shrinks : Shrinks step) (m : M) (n : ℕ) (short : n < 16) where
    -- A string field that is only written if it is not empty.
    pub Merges-string :
        (f : String → M) (v : String) (rest : List B) (r : M)
        → ((bytes : List B)
            → step m n length_delimited bytes
              ≡ into wire f (wire.read_string length_delimited bytes))
        → m ≡ f ""
        → length (if is_empty v then [] else wire.write_string n v) < 2 ^ 32
        → Merges wire step (f v) rest r
        → Merges wire step m ((if is_empty v then [] else wire.write_string n v) ++ rest) r
    unfolding IsField
    Merges-string f String.[] rest r reads same fits merges =
        subst (λ z. Merges wire step z rest r) (sym same) merges
    Merges-string f (String.◌∷◌ c s) rest r reads same fits merges =
        let v = String.◌∷◌ c s in
        Merges-field wire step shrinks m (f v) r (wire.write_string n v) rest
          (λ more.
            let (bytes, tag, read) = wire.read_string-write_string n v more short fits in
            (n, length_delimited, bytes, tag, reads bytes ∙ ap (into wire f) read))
          merges

    pub Merges-bytes :
        (f : Bytes → M) (v : Bytes) (rest : List B) (r : M)
        → ((bytes : List B)
            → step m n length_delimited bytes
              ≡ into wire f (wire.read_bytes length_delimited bytes))
        → m ≡ f []
        → length (if is_empty_bytes v then [] else wire.write_bytes n v) < 2 ^ 32
        → Merges wire step (f v) rest r
        → Merges wire step m ((if is_empty_bytes v then [] else wire.write_bytes n v) ++ rest) r
    unfolding IsField
    Merges-bytes f [] rest r reads same fits merges =
        subst (λ z. Merges wire step z rest r) (sym same) merges
    Merges-bytes f (b ∷ v) rest r reads same fits merges =
        Merges-field wire step shrinks m (f (b ∷ v)) r (wire.write_bytes n (b ∷ v)) rest
          (λ more.
            let (bytes, tag, read) = wire.read_bytes-write_bytes n (b ∷ v) more short fits in
            (n, length_delimited, bytes, tag, reads bytes ∙ ap (into wire f) read))
          merges

    pub Merges-bool :
        (f : Bool → M) (v : Bool) (rest : List B) (r : M)
        → ((bytes : List B) → step m n varint bytes ≡ into wire f (wire.read_bool bytes))
        → m ≡ f false
        → Merges wire step (f v) rest r
        → Merges wire step m ((if v then wire.write_bool n v else []) ++ rest) r
    unfolding IsField
    Merges-bool f false rest r reads same merges =
        subst (λ z. Merges wire step z rest r) (sym same) merges
    Merges-bool f true rest r reads same merges =
        Merges-field wire step shrinks m (f true) r (wire.write_bool n true) rest
          (λ more.
            let (bytes, tag, read) = wire.read_bool-write_bool n true more short in
            (n, varint, bytes, tag, reads bytes ∙ ap (into wire f) read))
          merges

  -- The strings of a repeated field, appended one by one.
  pub Merges-strings :
      (step : Step B M) (shrinks : Shrinks step) (n : ℕ) (f : List String → M)
      (old strings : List String) (rest : List B) (r : M)
      → n < 16
      → ((seen : List String) (bytes : List B)
          → step (f seen) n length_delimited bytes
            ≡ into wire f (wire.read_repeated_string seen length_delimited bytes))
      → length (write_strings wire n strings) < 2 ^ 32
      → Merges wire step (f (old ++ strings)) rest r
      → Merges wire step (f old) (write_strings wire n strings ++ rest) r
  unfolding IsField write_strings
  Merges-strings step shrinks n f old [] rest r short reads fits merges =
      subst (λ z. Merges wire step (f z) rest r) (append-nil old) merges
  Merges-strings step shrinks n f old (s ∷ strings) rest r short reads fits merges =
      let w = wire.write_string n s in
      let others = write_strings wire n strings in
      let sum = length-append w others in
      let next = old ++ s ∷ [] in
      let after =
        Merges-strings step shrinks n f next strings rest r short reads (omega (arith, sum)) (
          subst (λ z. Merges wire step (f z) rest r) (sym (append_assoc old (s ∷ []) strings))
            merges) in
      subst (λ z. Merges wire step (f old) z r) (sym (append_assoc w others rest))
        (Merges-field wire step shrinks (f old) (f next) r w (others ++ rest)
          (λ more.
            let (bytes, tag, read) =
              wire.read_repeated_string-write_string n s old more short (omega (arith, sum)) in
            (n, length_delimited, bytes, tag, reads old bytes ∙ ap (into wire f) read))
          after)
