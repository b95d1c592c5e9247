-- ===== src/Tests/Codecs.antt =====
-- How the tests of src/internal_queue_file_manager.rs write numbers and items, in two bytes each.
use brqueue.Base.{
  ℕ, suc, ◌<◌, String, ◌≡◌, ap, sym, [], ◌∷◌, ◌++◌, Result, ok, err, ok-injective, length, arith,
  List, zero, string_eq, nat_eq,
}
use brqueue.Std.Fs.{Bytes}
use brqueue.Models.{Priority, low, high}
use brqueue.Models.QueueItem.{QueueItem}
use brqueue.FileItemReader.{Codec}

abbrev pub read_number : Bytes → Result String (ℕ × Bytes)
read_number (suc _ ∷ n ∷ rest) = ok (n, rest)
read_number _ = err "unexpected end of file"

abbrev pub write_number : ℕ → Result String Bytes
write_number n = ok (1 ∷ n ∷ [])

pub read_number-write_number :
    (n : ℕ) (bytes rest : Bytes)
    → write_number n ≡ ok bytes
    → read_number (bytes ++ rest) ≡ ok (n, rest)
read_number-write_number n bytes rest h = ap (λ w. read_number (w ++ rest)) (sym (ok-injective h))

pub length-read_number :
    (n : ℕ) (bytes rest : Bytes) → read_number bytes ≡ ok (n, rest) → length rest < length bytes
length-read_number n bytes rest h = ground arith

abbrev pub numbers : Codec ℕ
numbers = record {
  serialize = write_number;
  deserialize_from = read_number;
  deserialize-serialize = read_number-write_number;
  length-deserialize = length-read_number;
}

abbrev pub Item : Type 0
Item = QueueItem ℕ (Unit {0})

abbrev pub item_with : List String → Priority → ℕ → Item
item_with tags p id = record {
  payload = tt;
  required_tags = record { inner = tags };
  id = id;
  priority = p;
}

-- Only items without tags are written.
abbrev pub write_plain : List String → Priority → ℕ → Result String Bytes
write_plain [] high id = ok (1 ∷ id ∷ [])
write_plain [] low id = ok (0 ∷ id ∷ [])
write_plain (_ ∷ _) p id = err "unsupported"

abbrev pub read_plain : Bytes → Result String (Item × Bytes)
read_plain (zero ∷ id ∷ rest) = ok (item_with [] low id, rest)
read_plain (suc _ ∷ id ∷ rest) = ok (item_with [] high id, rest)
read_plain _ = err "unexpected end of file"

pub read_plain-write_plain :
    (tags : List String) (p : Priority) (id : ℕ) (bytes rest : Bytes)
    → write_plain tags p id ≡ ok bytes
    → read_plain (bytes ++ rest) ≡ ok (item_with tags p id, rest)
read_plain-write_plain [] high id bytes rest h =
    ap (λ w. read_plain (w ++ rest)) (sym (ok-injective h))
read_plain-write_plain [] low id bytes rest h =
    ap (λ w. read_plain (w ++ rest)) (sym (ok-injective h))
read_plain-write_plain (t ∷ tags) p id bytes rest h = cc h

pub length-read_plain :
    (x : Item) (bytes rest : Bytes) → read_plain bytes ≡ ok (x, rest) → length rest < length bytes
length-read_plain x bytes rest h = ground arith

abbrev pub plain_items : Codec Item
plain_items = record {
  serialize = λ x. write_plain x.required_tags.inner x.priority x.id;
  deserialize_from = read_plain;
  deserialize-serialize =
      λ x bytes rest h. read_plain-write_plain x.required_tags.inner x.priority x.id bytes rest h;
  length-deserialize = length-read_plain;
}
