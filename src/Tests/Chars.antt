-- ===== src/Tests/Chars.antt =====
-- How the tests write texts as numbers: each character as one more than its code, and then 0.
use Prim.Native.Nat.{Ordering, compare}
use Prim.Native.Char.{Char, char, code, IsLt}
use brqueue.Base.{
  ℕ, zero, suc, ◌≤◌, String, ◌≡◌, refl, Option, none, some, [], ◌∷◌, ◌++◌, ok, err, length, arith,
}
use brqueue.Std.Fs.{Bytes}
use brqueue.Rpc.Runtime.{Read}

-- The clauses that `IsScalar` has.
abbrev BothLt : Ordering → Ordering → Type 0
BothLt Ordering.lt o = IsLt o
BothLt Ordering.eq _ = ⊥
BothLt Ordering.gt _ = ⊥

abbrev Scalar : Ordering → Ordering → Ordering → Type 0
Scalar Ordering.lt _ _ = Unit
Scalar Ordering.eq o p = BothLt o p
Scalar Ordering.gt o p = BothLt o p

is_lt? : (o : Ordering) → Option (IsLt o)
is_lt? Ordering.lt = some tt
is_lt? Ordering.eq = none
is_lt? Ordering.gt = none

both_lt? : (o p : Ordering) → Option (BothLt o p)
unfolding is_lt?
both_lt? Ordering.lt p = is_lt? p
both_lt? Ordering.eq p = none
both_lt? Ordering.gt p = none

scalar? : (o p q : Ordering) → Option (Scalar o p q)
unfolding both_lt?
scalar? Ordering.lt p q = some tt
scalar? Ordering.eq p q = both_lt? p q
scalar? Ordering.gt p q = both_lt? p q

both_lt?-some : (o p : Ordering) (h : BothLt o p) → both_lt? o p ≡ some h
unfolding both_lt? is_lt?
both_lt?-some Ordering.lt Ordering.lt h = refl
both_lt?-some Ordering.lt Ordering.eq h = absurd h
both_lt?-some Ordering.lt Ordering.gt h = absurd h
both_lt?-some Ordering.eq p h = absurd h
both_lt?-some Ordering.gt p h = absurd h

scalar?-some : (o p q : Ordering) (h : Scalar o p q) → scalar? o p q ≡ some h
unfolding scalar?
scalar?-some Ordering.lt p q h = refl
scalar?-some Ordering.eq p q h = both_lt?-some p q h
scalar?-some Ordering.gt p q h = both_lt?-some p q h

to_char : ℕ → Option Char
unfolding scalar?
to_char n = elim (scalar? (compare n 55296) (compare 57343 n) (compare n 1114112)) [
  | none ↦ none
  | some h ↦ some (char n h)
]

to_char-code : (c : Char) → to_char (code c) ≡ some c
unfolding to_char
to_char-code (char n h) =
    rw (scalar?-some (compare n 55296) (compare 57343 n) (compare n 1114112) h, to_char) refl

abbrev pub write_text : String → Bytes
write_text String.[] = 0 ∷ []
write_text (String.◌∷◌ c s) = suc (code c) ∷ write_text s

before : Option Char → Read ℕ String → Read ℕ String
before none r = err "not a character"
before (some c) (err x) = err x
before (some c) (ok (s, rest)) = ok (String.◌∷◌ c s, rest)

unfoldable pub read_text : Bytes → Read ℕ String
unfolding before to_char
read_text [] = err "no end of the text"
read_text (zero ∷ rest) = ok (String.[], rest)
read_text (suc n ∷ rest) = before (to_char n) (read_text rest)

pub read_text-write_text :
    (s : String) (rest : Bytes) → read_text (write_text s ++ rest) ≡ ok (s, rest)
unfolding read_text
read_text-write_text String.[] rest = refl
read_text-write_text (String.◌∷◌ c s) rest =
    rw (to_char-code c, read_text-write_text s rest, before) refl

before-ok :
    (c : Option Char) (r : Read ℕ String) (s : String) (rest : Bytes)
    → before c r ≡ ok (s, rest)
    → (t : String) × (r ≡ ok (t, rest))
unfolding before
before-ok none r s rest h = cc h
before-ok (some c) (err x) s rest h = cc h
before-ok (some c) (ok (t, more)) s rest h = (t, ground arith)

pub length-read_text :
    (bytes rest : Bytes) (s : String) → read_text bytes ≡ ok (s, rest) → length rest ≤ length bytes
unfolding read_text
length-read_text [] rest s h = cc h
length-read_text (zero ∷ bytes) rest s h = ground arith
length-read_text (suc n ∷ bytes) rest s h =
    let (t, k) = before-ok (to_char n) (read_text bytes) s rest h in
    omega (arith, length-read_text bytes rest t k)
