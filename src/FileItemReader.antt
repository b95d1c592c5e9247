-- ===== src/FileItemReader.antt =====
-- src/file_item_reader.rs: an iterator over the items of a file, which ends at the first that cannot
-- be read. The crate bincode is a parameter.
pub mod Reading
pub mod Writing
use brqueue.Base.{
  ℕ, zero, suc, ◌<◌, String, ◌≡◌, Option, none, some, List, [], ◌∷◌, ◌++◌, Result, ok, err, length,
}
use brqueue.Std.Fs
use brqueue.Std.Fs.{Disk, Faults, Bytes}
use brqueue.Std.Io.{IoError}

-- `serialize` and `deserialize_from`: an item is read back, whatever follows it, and takes at least
-- one byte.
pub record Codec (T : Type 0) : Type 0 where
  pub serialize : T → Result String Bytes
  pub deserialize_from : Bytes → Result String (T × Bytes)
  pub deserialize-serialize :
      (x : T) (bytes rest : Bytes)
      → serialize x ≡ ok bytes
      → deserialize_from (bytes ++ rest) ≡ ok (x, rest)
  pub length-deserialize :
      (x : T) (bytes rest : Bytes)
      → deserialize_from bytes ≡ ok (x, rest)
      → length rest < length bytes

-- The reader, which is at the start of what is left of the file.
abbrev pub FileItemReader : Type 0
FileItemReader = Bytes

unfoldable pub new_from_file : Faults → Disk → String → Result IoError FileItemReader
new_from_file faults disk path = Fs.open_file faults disk path

module _ {T : Type 0} (codec : Codec T) where
  unfoldable pub next : FileItemReader → Option (T × FileItemReader)
  next reader = elim (codec.deserialize_from reader) [
    | ok (item, rest) ↦ some (item, rest)
    | err e ↦ none
  ]

  -- `collect()` of the iterator.
  unfoldable pub collect_loop : ℕ → FileItemReader → List T
  unfolding next
  collect_loop zero reader = []
  collect_loop (suc fuel) reader = elim (next reader) [
    | none ↦ []
    | some (item, rest) ↦ item ∷ collect_loop fuel rest
  ]

  unfoldable pub collect : FileItemReader → List T
  unfolding collect_loop
  collect reader = collect_loop (suc (length reader)) reader

  -- The bytes of items that are written one after the other.
  unfoldable pub serialize_items : List T → Result String Bytes
  serialize_items [] = ok []
  serialize_items (item ∷ items) = elim (codec.serialize item) [
    | err e ↦ err e
    | ok bytes ↦ elim (serialize_items items) [ err e ↦ err e | ok others ↦ ok (bytes ++ others) ]
  ]
