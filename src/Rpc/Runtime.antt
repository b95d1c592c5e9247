-- ===== src/Rpc/Runtime.antt =====
-- The runtime of rust-protobuf, as src/rpc/queue.rs uses it: what is written to a stream, the sizes of
-- what is written, and reads from a stream, over bytes of a type that is a parameter.
use brqueue.Base.{
  ℕ, ◌^◌, ◌<◌, ◌≤◌, String, ◌≡◌, Bool, Option, some, List, [], ◌∷◌, ◌++◌, Result, ok, length,
}
use brqueue.Base.Int.{ℤ}
use brqueue.Std.Fs.{Bytes}

pub data WireType : Type 0 where
  varint fixed64 length_delimited start_group end_group fixed32 : WireType

-- A stream of bytes that are still to be read, a value and the rest of the stream, or an error.
abbrev pub Read : Type 0 → Type 0 → Type 0
Read B A = Result String (A × List B)

-- What the code relies on: a field that was written with a number of one byte is read back, and a
-- read does not lengthen the stream; the sizes are those of what is written.
pub record Wire (B : Type 0) : Type 1 where
  pub write_tag : ℕ → WireType → List B
  pub write_raw_varint32 : ℕ → List B
  pub write_string : ℕ → String → List B
  pub write_bytes : ℕ → Bytes → List B
  pub write_bool : ℕ → Bool → List B
  pub write_int32 : ℕ → ℤ → List B
  pub write_enum : ℕ → ℤ → List B
  pub string_size : ℕ → String → ℕ
  pub bytes_size : ℕ → Bytes → ℕ
  pub enum_size : ℕ → ℤ → ℕ
  pub value_size : ℕ → ℤ → WireType → ℕ
  pub compute_raw_varint32_size : ℕ → ℕ
  pub read_tag_unpack : List B → Result String (ℕ × WireType × List B)
  pub read_string : WireType → List B → Read B String
  pub read_repeated_string : List String → WireType → List B → Read B (List String)
  pub read_bytes : WireType → List B → Read B Bytes
  pub read_enum : {E : Type 0} → (ℤ → Option E) → E → WireType → List B → Read B E
  pub read_bool : List B → Read B Bool
  pub read_int32 : List B → Read B ℤ
  pub read_message : {M : Type 0} → (List B → Result String M) → List B → Read B M
  pub skip_group : ℕ → WireType → List B → Result String (List B)
  pub unexpected_wire_type : WireType → String
  pub read_tag-write_tag :
      (n : ℕ) (t : WireType) (rest : List B)
      → n < 16
      → read_tag_unpack (write_tag n t ++ rest) ≡ ok (n, t, rest)
  pub read_string-write_string :
      (n : ℕ) (s : String) (rest : List B)
      → n < 16
      → length (write_string n s) < 2 ^ 32
      → (bytes : List B) × (read_tag_unpack (write_string n s ++ rest)
          ≡ ok (n, length_delimited, bytes))
        × (read_string length_delimited bytes ≡ ok (s, rest))
  pub read_repeated_string-write_string :
      (n : ℕ) (s : String) (old : List String) (rest : List B)
      → n < 16
      → length (write_string n s) < 2 ^ 32
      → (bytes : List B) × (read_tag_unpack (write_string n s ++ rest)
          ≡ ok (n, length_delimited, bytes))
        × (read_repeated_string old length_delimited bytes ≡ ok (old ++ s ∷ [], rest))
  pub read_bytes-write_bytes :
      (n : ℕ) (s : Bytes) (rest : List B)
      → n < 16
      → length (write_bytes n s) < 2 ^ 32
      → (bytes : List B) × (read_tag_unpack (write_bytes n s ++ rest)
          ≡ ok (n, length_delimited, bytes))
        × (read_bytes length_delimited bytes ≡ ok (s, rest))
  pub read_bool-write_bool :
      (n : ℕ) (b : Bool) (rest : List B)
      → n < 16
      → (bytes : List B) × (read_tag_unpack (write_bool n b ++ rest) ≡ ok (n, varint, bytes))
        × (read_bool bytes ≡ ok (b, rest))
  pub read_int32-write_int32 :
      (n : ℕ) (i : ℤ) (rest : List B)
      → n < 16
      → (bytes : List B) × (read_tag_unpack (write_int32 n i ++ rest) ≡ ok (n, varint, bytes))
        × (read_int32 bytes ≡ ok (i, rest))
  pub read_enum-write_enum :
      {E : Type 0} (from_i32 : ℤ → Option E) (n : ℕ) (i : ℤ) (old new : E) (rest : List B)
      → n < 16
      → from_i32 i ≡ some new
      → (bytes : List B) × (read_tag_unpack (write_enum n i ++ rest) ≡ ok (n, varint, bytes))
        × (read_enum from_i32 old varint bytes ≡ ok (new, rest))
  pub read_message-write :
      {M : Type 0} (merge : List B → Result String M) (bytes rest : List B) (m : M)
      → length bytes < 2 ^ 32
      → merge bytes ≡ ok m
      → read_message merge (write_raw_varint32 (length bytes) ++ (bytes ++ rest)) ≡ ok (m, rest)
  pub length-read_tag_unpack :
      (bytes rest : List B) (n : ℕ) (t : WireType)
      → read_tag_unpack bytes ≡ ok (n, t, rest)
      → length rest < length bytes
  pub length-read_string :
      (t : WireType) (bytes rest : List B) (s : String)
      → read_string t bytes ≡ ok (s, rest)
      → length rest ≤ length bytes
  pub length-read_repeated_string :
      (old new : List String) (t : WireType) (bytes rest : List B)
      → read_repeated_string old t bytes ≡ ok (new, rest)
      → length rest ≤ length bytes
  pub length-read_bytes :
      (t : WireType) (bytes rest : List B) (s : Bytes)
      → read_bytes t bytes ≡ ok (s, rest)
      → length rest ≤ length bytes
  pub length-read_enum :
      {E : Type 0} (from_i32 : ℤ → Option E) (old new : E) (t : WireType) (bytes rest : List B)
      → read_enum from_i32 old t bytes ≡ ok (new, rest)
      → length rest ≤ length bytes
  pub length-read_bool :
      (bytes rest : List B) (b : Bool) → read_bool bytes ≡ ok (b, rest) → length rest ≤ length bytes
  pub length-read_int32 :
      (bytes rest : List B) (i : ℤ) → read_int32 bytes ≡ ok (i, rest) → length rest ≤ length bytes
  pub length-read_message :
      {M : Type 0} (merge : List B → Result String M) (bytes rest : List B) (m : M)
      → read_message merge bytes ≡ ok (m, rest)
      → length rest ≤ length bytes
  pub length-skip_group :
      (n : ℕ) (t : WireType) (bytes rest : List B)
      → skip_group n t bytes ≡ ok rest
      → length rest ≤ length bytes
  pub string_size-write_string :
      (n : ℕ) (s : String)
      → n < 16
      → length (write_string n s) < 2 ^ 32
      → string_size n s ≡ length (write_string n s)
  pub bytes_size-write_bytes :
      (n : ℕ) (s : Bytes)
      → n < 16
      → length (write_bytes n s) < 2 ^ 32
      → bytes_size n s ≡ length (write_bytes n s)
  pub enum_size-write_enum : (n : ℕ) (i : ℤ) → n < 16 → enum_size n i ≡ length (write_enum n i)
  pub value_size-write_int32 :
      (n : ℕ) (i : ℤ) → n < 16 → value_size n i varint ≡ length (write_int32 n i)
  pub length-write_bool : (n : ℕ) (b : Bool) → n < 16 → length (write_bool n b) ≡ 2
  pub length-write_tag : (n : ℕ) (t : WireType) → n < 16 → length (write_tag n t) ≡ 1
  pub raw_varint32_size-write :
      (n : ℕ) → n < 2 ^ 32 → compute_raw_varint32_size n ≡ length (write_raw_varint32 n)
