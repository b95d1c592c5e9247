-- ===== src/Tests/QueueTests.antt =====
-- Tests of the queue of src/queue.rs.
use brqueue.Base.{◌≡◌, refl, none, some, [], ◌∷◌, ◌++◌, ok, string_eq}
use brqueue.Models.{low, high}
use brqueue.Models.Tags
use brqueue.Models.QueueItem.{can_be_handled_by}
use brqueue.Queue.{Queue, enqueue, pop}
use brqueue.Queue.Order.{enqueue-contents, pop-found, pop-none}
use brqueue.Tests.Support.{channel, item}

abbrev three : Queue channel
three = item 1 "a" high ∷ item 2 "b" high ∷ item 3 "b" low ∷ []

pop_second :
    pop channel three (Tags.from ("b" ∷ []))
    ≡ (ok (some (item 2 "b" high)), item 3 "b" low ∷ item 1 "a" high ∷ [])
unfolding pop Tags.from can_be_handled_by string_eq
pop_second = refl

enqueue-contents_example :
    ((enqueue channel three (item 4 "a" low)).0 ≡ ok tt)
    × ((enqueue channel three (item 4 "a" low)).1 ≡ three ++ item 4 "a" low ∷ [])
enqueue-contents_example = enqueue-contents channel three (item 4 "a" low)

pop-found_example :
    ((pop channel three (Tags.from ("b" ∷ []))).0 ≡ ok (some (item 2 "b" high)))
    × ((pop channel three (Tags.from ("b" ∷ []))).1 ≡ item 3 "b" low ∷ item 1 "a" high ∷ [])
unfolding Tags.from can_be_handled_by string_eq
pop-found_example =
    pop-found channel three (Tags.from ("b" ∷ [])) (item 1 "a" high ∷ []) (item 2 "b" high)
      (item 3 "b" low ∷ []) refl (refl, tt) refl

pop-none_example :
    ((pop channel three (Tags.from ("c" ∷ []))).0 ≡ ok none)
    × ((pop channel three (Tags.from ("c" ∷ []))).1 ≡ [])
unfolding Tags.from can_be_handled_by string_eq
pop-none_example = pop-none channel three (Tags.from ("c" ∷ [])) (refl, (refl, (refl, tt)))
