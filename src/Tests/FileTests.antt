-- ===== src/Tests/FileTests.antt =====
-- Tests of src/file_item_reader.rs, with items that are numbers, written in two bytes.
use brqueue.Base.{◌≡◌, refl, [], ◌∷◌, ◌++◌, string_eq, nat_eq}
use brqueue.FileItemReader.{collect, serialize_items}
use brqueue.FileItemReader.Reading.{collect-serialize_items}
use brqueue.Tests.Codecs.{numbers}

-- The last item is torn, and is not read.
collect-serialize_items_example :
    collect numbers ((1 ∷ 7 ∷ 1 ∷ 8 ∷ []) ++ 1 ∷ []) ≡ (7 ∷ 8 ∷ []) ++ collect numbers (1 ∷ [])
unfolding serialize_items
collect-serialize_items_example =
    collect-serialize_items numbers (7 ∷ 8 ∷ []) (1 ∷ 7 ∷ 1 ∷ 8 ∷ []) (1 ∷ []) refl

torn : collect numbers (1 ∷ 7 ∷ 1 ∷ 8 ∷ 1 ∷ []) ≡ 7 ∷ 8 ∷ []
unfolding collect
torn = refl
