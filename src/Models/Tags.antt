-- ===== src/Models/Tags.antt =====
-- `Tags` of src/models.rs: the set of capabilities that an item needs or a consumer has.
use brqueue.Base.{String, Bool, List, [], string_eq}
use brqueue.Std.HashSet
use brqueue.Std.HashSet.{HashSet}

pub record Tags : Type 0 where
  pub inner : HashSet String

unfoldable pub new : Tags
new = record { inner = HashSet.from_iter [] }

unfoldable pub add_tag : Tags → String → Tags
unfolding HashSet.insert
add_tag tags s = record { inner = HashSet.insert tags.inner s }

unfoldable pub is_subset : Tags → Tags → Bool
unfolding HashSet.is_subset
is_subset tags other = HashSet.is_subset tags.inner other.inner

unfoldable pub is_superset : Tags → Tags → Bool
unfolding HashSet.is_superset
is_superset tags other = HashSet.is_superset tags.inner other.inner

-- `Tags::from` of a vector of strings.
unfoldable pub from : List String → Tags
unfolding HashSet.from_iter
from v = record { inner = HashSet.from_iter v }

-- The strings of the tags.
abbrev pub has : Tags → String → Bool
has tags s = HashSet.contains tags.inner s
