-- ===== src/Tests/ByteWire.antt =====
-- A runtime of src/rpc/queue.rs that writes numbers, for messages that go over a connection.
use brqueue.Base.{
  ℕ, zero, suc, ◌+◌, ◌*◌, ◌/◌, ◌%◌, ◌<◌, ◌≤◌, String, ◌≡◌, refl, ap, ◌∙◌, Bool, true, false, Option,
  List, [], ◌∷◌, ◌++◌, Result, ok, err, length, arith,
}
use brqueue.Base.Int.{ℤ, pos, negsuc}
use brqueue.Std.Fs.{Bytes}
use brqueue.Std.Net.{take, drop}
use brqueue.Rpc.Runtime.{
  Wire, WireType, varint, fixed64, length_delimited, start_group, end_group, fixed32, Read,
}
use brqueue.Tests.Chars.{write_text, read_text, read_text-write_text, length-read_text}
use brqueue.Tests.Tokens.{known}

abbrev pub type_code : WireType → ℕ
type_code varint = 0
type_code fixed64 = 1
type_code length_delimited = 2
type_code start_group = 3
type_code end_group = 4
type_code fixed32 = 5

abbrev pub type_of : ℕ → WireType
type_of zero = varint
type_of (suc zero) = fixed64
type_of (suc (suc zero)) = length_delimited
type_of (suc (suc (suc zero))) = start_group
type_of (suc (suc (suc (suc zero)))) = end_group
type_of _ = fixed32

abbrev pub tag : ℕ → WireType → ℕ
tag n t = n * 8 + type_code t

abbrev pub read_tag : Bytes → Result String (ℕ × WireType × Bytes)
read_tag [] = err "no tag"
read_tag (b ∷ rest) = ok (b / 8, type_of (b % 8), rest)

pub read_tag-tag :
    (n : ℕ) (t : WireType) (rest : Bytes) → read_tag (tag n t ∷ rest) ≡ ok (n, t, rest)
read_tag-tag n t rest = let (a, b) = parts t in rw (a, b) (ap (λ u. ok (n, u, rest)) (named t))
  where
    parts : (t : WireType) → (tag n t / 8 ≡ n) × (tag n t % 8 ≡ type_code t)
    parts varint = (omega arith, omega arith)
    parts fixed64 = (omega arith, omega arith)
    parts length_delimited = (omega arith, omega arith)
    parts start_group = (omega arith, omega arith)
    parts end_group = (omega arith, omega arith)
    parts fixed32 = (omega arith, omega arith)

    named : (t : WireType) → type_of (type_code t) ≡ t
    named varint = refl
    named fixed64 = refl
    named length_delimited = refl
    named start_group = refl
    named end_group = refl
    named fixed32 = refl

abbrev pub write_raw : Bytes → Bytes
write_raw [] = 0 ∷ []
write_raw (b ∷ bytes) = suc b ∷ write_raw bytes

abbrev pub in_front : ℕ → Read ℕ Bytes → Read ℕ Bytes
in_front b (ok (s, rest)) = ok (b ∷ s, rest)
in_front b (err x) = err x

abbrev pub read_raw : Bytes → Read ℕ Bytes
read_raw [] = err "no end of the bytes"
read_raw (zero ∷ rest) = ok ([], rest)
read_raw (suc b ∷ rest) = in_front b (read_raw rest)

pub read_raw-write_raw : (s rest : Bytes) → read_raw (write_raw s ++ rest) ≡ ok (s, rest)
read_raw-write_raw [] rest = refl
read_raw-write_raw (b ∷ s) rest = ap (in_front b) (read_raw-write_raw s rest)

in_front-ok :
    (b : ℕ) (r : Read ℕ Bytes) (s rest : Bytes)
    → in_front b r ≡ ok (s, rest)
    → (t : Bytes) × (r ≡ ok (t, rest))
in_front-ok b (ok (t, more)) s rest h = (t, ground arith)
in_front-ok b (err x) s rest h = cc h

pub length-read_raw :
    (bytes rest s : Bytes) → read_raw bytes ≡ ok (s, rest) → length rest ≤ length bytes
length-read_raw [] rest s h = cc h
length-read_raw (zero ∷ bytes) rest s h = ground arith
length-read_raw (suc b ∷ bytes) rest s h =
    let (t, k) = in_front-ok b (read_raw bytes) s rest h in
    omega (arith, length-read_raw bytes rest t k)

abbrev pub write_bit : Bool → ℕ
write_bit true = 1
write_bit false = 0

abbrev pub read_bit : Bytes → Read ℕ Bool
read_bit [] = err "no bit"
read_bit (zero ∷ rest) = ok (false, rest)
read_bit (suc _ ∷ rest) = ok (true, rest)

abbrev pub write_number : ℤ → Bytes
write_number (pos n) = 0 ∷ n ∷ []
write_number (negsuc n) = 1 ∷ n ∷ []

abbrev pub read_number : Bytes → Read ℕ ℤ
read_number (zero ∷ n ∷ rest) = ok (pos n, rest)
read_number (suc _ ∷ n ∷ rest) = ok (negsuc n, rest)
read_number _ = err "no number"

pub read_number-write_number :
    (i : ℤ) (rest : Bytes) → read_number (write_number i ++ rest) ≡ ok (i, rest)
read_number-write_number (pos n) rest = refl
read_number-write_number (negsuc n) rest = refl

pub read_bit-write_bit : (b : Bool) (rest : Bytes) → read_bit (write_bit b ∷ rest) ≡ ok (b, rest)
read_bit-write_bit true rest = refl
read_bit-write_bit false rest = refl

abbrev pub chosen : {E : Type 0} → (ℤ → Option E) → E → Read ℕ ℤ → Read ℕ E
chosen from old (ok (i, rest)) = ok (known old (from i), rest)
chosen from old (err x) = err x

abbrev pub appended : List String → Read ℕ String → Read ℕ (List String)
appended old (ok (s, rest)) = ok (old ++ s ∷ [], rest)
appended old (err x) = err x

abbrev pub paired : {M : Type 0} → Bytes → Result String M → Read ℕ M
paired rest (ok m) = ok (m, rest)
paired rest (err x) = err x

abbrev pub read_inner : {M : Type 0} → (Bytes → Result String M) → Bytes → Read ℕ M
read_inner merge (n ∷ bytes) = paired (drop n bytes) (merge (take n bytes))
read_inner merge [] = err "no size"

abbrev pub skip : ℕ → WireType → Bytes → Result String Bytes
skip n t [] = err "end of stream"
skip n t (b ∷ rest) = ok rest

take-length : (xs ys : Bytes) → take (length xs) (xs ++ ys) ≡ xs
take-length [] ys = refl
take-length (x ∷ xs) ys = ap (◌∷◌ x) (take-length xs ys)

drop-length : (xs ys : Bytes) → drop (length xs) (xs ++ ys) ≡ ys
drop-length [] ys = refl
drop-length (x ∷ xs) ys = drop-length xs ys

length-drop : (n : ℕ) (xs : Bytes) → length (drop n xs) ≤ length xs
length-drop zero xs = omega arith
length-drop (suc n) [] = omega arith
length-drop (suc n) (x ∷ xs) = omega (arith, length-drop n xs)

pub read_inner-write :
    {M : Type 0} (merge : Bytes → Result String M) (bytes rest : Bytes) (m : M)
    → merge bytes ≡ ok m
    → read_inner merge (length bytes ∷ bytes ++ rest) ≡ ok (m, rest)
read_inner-write merge bytes rest m h = rw (take-length bytes rest, drop-length bytes rest, h) refl

paired-ok :
    {M : Type 0} (after rest : Bytes) (r : Result String M) (m : M)
    → paired after r ≡ ok (m, rest)
    → after ≡ rest
paired-ok after rest (ok n) m h = cc h
paired-ok after rest (err e) m h = cc h

pub length-read_inner :
    {M : Type 0} (merge : Bytes → Result String M) (bytes rest : Bytes) (m : M)
    → read_inner merge bytes ≡ ok (m, rest)
    → length rest ≤ length bytes
length-read_inner merge (n ∷ bytes) rest m h =
    let same = paired-ok (drop n bytes) rest (merge (take n bytes)) m h in
    omega (arith, ap length same, length-drop n bytes)
length-read_inner merge [] rest m h = cc h

pub length-read_number :
    (bytes rest : Bytes) (i : ℤ) → read_number bytes ≡ ok (i, rest) → length rest ≤ length bytes
length-read_number bytes rest i h = ground arith

pub chosen-ok :
    {E : Type 0} (from : ℤ → Option E) (old new : E) (r : Read ℕ ℤ) (rest : Bytes)
    → chosen from old r ≡ ok (new, rest)
    → (i : ℤ) × (r ≡ ok (i, rest))
chosen-ok from old new (ok (i, more)) rest h = (i, ground arith)
chosen-ok from old new (err x) rest h = cc h

pub appended-ok :
    (old new : List String) (r : Read ℕ String) (rest : Bytes)
    → appended old r ≡ ok (new, rest)
    → (s : String) × (r ≡ ok (s, rest))
appended-ok old new (ok (s, more)) rest h = (s, ground arith)
appended-ok old new (err x) rest h = cc h

pub length-write_number : (i : ℤ) → 2 ≡ length (write_number i)
length-write_number (pos n) = refl
length-write_number (negsuc n) = refl

pub length-read_tag :
    (bytes rest : Bytes) (n : ℕ) (t : WireType)
    → read_tag bytes ≡ ok (n, t, rest)
    → length rest < length bytes
length-read_tag bytes rest n t h = ground arith

pub length-read_bit :
    (bytes rest : Bytes) (b : Bool) → read_bit bytes ≡ ok (b, rest) → length rest ≤ length bytes
length-read_bit bytes rest b h = ground arith

pub length-skip :
    (n : ℕ) (t : WireType) (bytes rest : Bytes)
    → skip n t bytes ≡ ok rest
    → length rest ≤ length bytes
length-skip n t bytes rest h = ground arith

abbrev pub bytes_wire : Wire ℕ
bytes_wire = record {
  write_tag = λ n t. tag n t ∷ [];
  write_raw_varint32 = λ n. n ∷ [];
  write_string = λ n s. tag n length_delimited ∷ write_text s;
  write_bytes = λ n s. tag n length_delimited ∷ write_raw s;
  write_bool = λ n b. tag n varint ∷ write_bit b ∷ [];
  write_int32 = λ n i. tag n varint ∷ write_number i;
  write_enum = λ n i. tag n varint ∷ write_number i;
  string_size = λ n s. suc (length (write_text s));
  bytes_size = λ n s. suc (length (write_raw s));
  enum_size = λ n i. 3;
  value_size = λ n i t. 3;
  compute_raw_varint32_size = λ n. 1;
  read_tag_unpack = read_tag;
  read_string = λ t. read_text;
  read_repeated_string = λ old t bytes. appended old (read_text bytes);
  read_bytes = λ t. read_raw;
  read_enum = λ from old t bytes. chosen from old (read_number bytes);
  read_bool = read_bit;
  read_int32 = read_number;
  read_message = read_inner;
  skip_group = skip;
  unexpected_wire_type = λ t. "unexpected wire type";
  read_tag-write_tag = λ n t rest short. read_tag-tag n t rest;
  read_string-write_string = λ n s rest short fits.
      (write_text s ++ rest, read_tag-tag n length_delimited _, read_text-write_text s rest);
  read_repeated_string-write_string = λ n s old rest short fits. (
    write_text s ++ rest,
    read_tag-tag n length_delimited _,
    ap (appended old) (read_text-write_text s rest),
  );
  read_bytes-write_bytes = λ n s rest short fits.
      (write_raw s ++ rest, read_tag-tag n length_delimited _, read_raw-write_raw s rest);
  read_bool-write_bool =
      λ n b rest short. (write_bit b ∷ rest, read_tag-tag n varint _, read_bit-write_bit b rest);
  read_int32-write_int32 = λ n i rest short.
      (write_number i ++ rest, read_tag-tag n varint _, read_number-write_number i rest);
  read_enum-write_enum = λ from n i old new rest short h. (
    write_number i ++ rest,
    read_tag-tag n varint _,
    ap (chosen from old) (read_number-write_number i rest) ∙ ap (λ o. ok (known old o, rest)) h,
  );
  read_message-write = λ merge bytes rest m fits h. read_inner-write merge bytes rest m h;
  length-read_tag_unpack = length-read_tag;
  length-read_string = λ t bytes rest s h. length-read_text bytes rest s h;
  length-read_repeated_string = λ old new t bytes rest h.
      let (s, k) = appended-ok old new (read_text bytes) rest h in length-read_text bytes rest s k;
  length-read_bytes = λ t bytes rest s h. length-read_raw bytes rest s h;
  length-read_enum = λ from old new t bytes rest h.
      let (i, k) = chosen-ok from old new (read_number bytes) rest h in
      length-read_number bytes rest i k;
  length-read_bool = length-read_bit;
  length-read_int32 = length-read_number;
  length-read_message = length-read_inner;
  length-skip_group = length-skip;
  string_size-write_string = λ n s short fits. refl;
  bytes_size-write_bytes = λ n s short fits. refl;
  enum_size-write_enum = λ n i short. ap suc (length-write_number i);
  value_size-write_int32 = λ n i short. ap suc (length-write_number i);
  length-write_bool = λ n b short. refl;
  length-write_tag = λ n t short. refl;
  raw_varint32_size-write = λ n h. refl;
}
