-- ===== src/Tests/Tokens.antt =====
-- A runtime of src/rpc/queue.rs that writes a value of any type as one token.
use brqueue.Base.{
  ℕ, zero, suc, ◌<◌, ◌≤◌, String, ◌≡◌, refl, ap, Bool, Option, none, some, List, [], ◌∷◌, ◌++◌,
  Result, ok, err, length, arith,
}
use brqueue.Base.Int.{ℤ}
use brqueue.Std.Fs.{Bytes}
use brqueue.Rpc.Runtime.{Wire, WireType, varint, length_delimited, Read}

pub data Token : Type 0 where
  tag : ℕ → WireType → Token
  size : ℕ → Token
  text : String → Token
  raw : Bytes → Token
  flag : Bool → Token
  number : ℤ → Token

abbrev pub take : ℕ → List Token → List Token
take zero xs = []
take (suc n) [] = []
take (suc n) (x ∷ xs) = x ∷ take n xs

abbrev pub drop : ℕ → List Token → List Token
drop zero xs = xs
drop (suc n) [] = []
drop (suc n) (x ∷ xs) = drop n xs

take-length : (xs ys : List Token) → take (length xs) (xs ++ ys) ≡ xs
take-length [] ys = refl
take-length (x ∷ xs) ys = ap (◌∷◌ x) (take-length xs ys)

drop-length : (xs ys : List Token) → drop (length xs) (xs ++ ys) ≡ ys
drop-length [] ys = refl
drop-length (x ∷ xs) ys = drop-length xs ys

length-drop : (n : ℕ) (xs : List Token) → length (drop n xs) ≤ length xs
length-drop zero xs = omega arith
length-drop (suc n) [] = omega arith
length-drop (suc n) (x ∷ xs) = omega (arith, length-drop n xs)

abbrev pub read_tag : List Token → Result String (ℕ × WireType × List Token)
read_tag (tag n t ∷ rest) = ok (n, t, rest)
read_tag _ = err "no tag"

abbrev pub read_text : WireType → List Token → Read Token String
read_text t (text s ∷ rest) = ok (s, rest)
read_text t _ = err "no string"

abbrev pub read_texts : List String → WireType → List Token → Read Token (List String)
read_texts old t (text s ∷ rest) = ok (old ++ s ∷ [], rest)
read_texts old t _ = err "no string"

abbrev pub read_raw : WireType → List Token → Read Token Bytes
read_raw t (raw s ∷ rest) = ok (s, rest)
read_raw t _ = err "no bytes"

abbrev pub known : {E : Type 0} → E → Option E → E
known old none = old
known old (some new) = new

abbrev pub read_choice : {E : Type 0} → (ℤ → Option E) → E → WireType → List Token → Read Token E
read_choice from old t (number i ∷ rest) = ok (known old (from i), rest)
read_choice from old t _ = err "no number"

abbrev pub read_flag : List Token → Read Token Bool
read_flag (flag b ∷ rest) = ok (b, rest)
read_flag _ = err "no flag"

abbrev pub read_number : List Token → Read Token ℤ
read_number (number i ∷ rest) = ok (i, rest)
read_number _ = err "no number"

abbrev pub before : {M : Type 0} → List Token → Result String M → Read Token M
before rest (ok m) = ok (m, rest)
before rest (err e) = err e

abbrev pub read_inner : {M : Type 0} → (List Token → Result String M) → List Token → Read Token M
read_inner merge (size n ∷ bytes) = before (drop n bytes) (merge (take n bytes))
read_inner merge _ = err "no size"

abbrev pub skip : ℕ → WireType → List Token → Result String (List Token)
skip n t [] = err "end of stream"
skip n t (x ∷ rest) = ok rest

pub read_inner-write :
    {M : Type 0} (merge : List Token → Result String M) (bytes rest : List Token) (m : M)
    → merge bytes ≡ ok m
    → read_inner merge (size (length bytes) ∷ [] ++ (bytes ++ rest)) ≡ ok (m, rest)
read_inner-write merge bytes rest m h = rw (take-length bytes rest, drop-length bytes rest, h) refl

before-ok :
    {M : Type 0} (after rest : List Token) (r : Result String M) (m : M)
    → before after r ≡ ok (m, rest)
    → after ≡ rest
before-ok after rest (ok n) m h = cc h
before-ok after rest (err e) m h = cc h

pub length-read_tag :
    (bytes rest : List Token) (n : ℕ) (t : WireType)
    → read_tag bytes ≡ ok (n, t, rest)
    → length rest < length bytes
length-read_tag bytes rest n t h = ground arith

pub length-read_text :
    (t : WireType) (bytes rest : List Token) (s : String)
    → read_text t bytes ≡ ok (s, rest)
    → length rest ≤ length bytes
length-read_text t bytes rest s h = ground arith

pub length-read_texts :
    (old new : List String) (t : WireType) (bytes rest : List Token)
    → read_texts old t bytes ≡ ok (new, rest)
    → length rest ≤ length bytes
length-read_texts old new t bytes rest h = ground arith

pub length-read_raw :
    (t : WireType) (bytes rest : List Token) (s : Bytes)
    → read_raw t bytes ≡ ok (s, rest)
    → length rest ≤ length bytes
length-read_raw t bytes rest s h = ground arith

pub length-read_choice :
    {E : Type 0} (from : ℤ → Option E) (old new : E) (t : WireType) (bytes rest : List Token)
    → read_choice from old t bytes ≡ ok (new, rest)
    → length rest ≤ length bytes
length-read_choice from old new t bytes rest h = ground arith

pub length-read_flag :
    (bytes rest : List Token) (b : Bool)
    → read_flag bytes ≡ ok (b, rest)
    → length rest ≤ length bytes
length-read_flag bytes rest b h = ground arith

pub length-read_number :
    (bytes rest : List Token) (i : ℤ)
    → read_number bytes ≡ ok (i, rest)
    → length rest ≤ length bytes
length-read_number bytes rest i h = ground arith

pub length-read_inner :
    {M : Type 0} (merge : List Token → Result String M) (bytes rest : List Token) (m : M)
    → read_inner merge bytes ≡ ok (m, rest)
    → length rest ≤ length bytes
length-read_inner merge (size n ∷ bytes) rest m h =
    let same = before-ok (drop n bytes) rest (merge (take n bytes)) m h in
    omega (arith, ap length same, length-drop n bytes)
length-read_inner merge [] rest m h = cc h
length-read_inner merge (tag n t ∷ bytes) rest m h = cc h
length-read_inner merge (text s ∷ bytes) rest m h = cc h
length-read_inner merge (raw s ∷ bytes) rest m h = cc h
length-read_inner merge (flag b ∷ bytes) rest m h = cc h
length-read_inner merge (number i ∷ bytes) rest m h = cc h

pub length-skip :
    (n : ℕ) (t : WireType) (bytes rest : List Token)
    → skip n t bytes ≡ ok rest
    → length rest ≤ length bytes
length-skip n t bytes rest h = ground arith

abbrev pub tokens : Wire Token
tokens = record {
  write_tag = λ n t. tag n t ∷ [];
  write_raw_varint32 = λ n. size n ∷ [];
  write_string = λ n s. tag n length_delimited ∷ text s ∷ [];
  write_bytes = λ n s. tag n length_delimited ∷ raw s ∷ [];
  write_bool = λ n b. tag n varint ∷ flag b ∷ [];
  write_int32 = λ n i. tag n varint ∷ number i ∷ [];
  write_enum = λ n i. tag n varint ∷ number i ∷ [];
  string_size = λ n s. 2;
  bytes_size = λ n s. 2;
  enum_size = λ n i. 2;
  value_size = λ n i t. 2;
  compute_raw_varint32_size = λ n. 1;
  read_tag_unpack = read_tag;
  read_string = read_text;
  read_repeated_string = read_texts;
  read_bytes = read_raw;
  read_enum = read_choice;
  read_bool = read_flag;
  read_int32 = read_number;
  read_message = read_inner;
  skip_group = skip;
  unexpected_wire_type = λ t. "unexpected wire type";
  read_tag-write_tag = λ n t rest short. refl;
  read_string-write_string = λ n s rest short fits. (text s ∷ rest, refl, refl);
  read_repeated_string-write_string = λ n s old rest short fits. (text s ∷ rest, refl, refl);
  read_bytes-write_bytes = λ n s rest short fits. (raw s ∷ rest, refl, refl);
  read_bool-write_bool = λ n b rest short. (flag b ∷ rest, refl, refl);
  read_int32-write_int32 = λ n i rest short. (number i ∷ rest, refl, refl);
  read_enum-write_enum =
      λ from n i old new rest short h. (number i ∷ rest, refl, ap (λ o. ok (known old o, rest)) h);
  read_message-write = λ merge bytes rest m fits h. read_inner-write merge bytes rest m h;
  length-read_tag_unpack = length-read_tag;
  length-read_string = length-read_text;
  length-read_repeated_string = length-read_texts;
  length-read_bytes = length-read_raw;
  length-read_enum = length-read_choice;
  length-read_bool = length-read_flag;
  length-read_int32 = length-read_number;
  length-read_message = length-read_inner;
  length-skip_group = length-skip;
  string_size-write_string = λ n s short fits. refl;
  bytes_size-write_bytes = λ n s short fits. refl;
  enum_size-write_enum = λ n i short. refl;
  value_size-write_int32 = λ n i short. refl;
  length-write_bool = λ n b short. refl;
  length-write_tag = λ n t short. refl;
  raw_varint32_size-write = λ n h. refl;
}
