-- ===== src/Std/Net.antt =====
-- `std::net::TcpStream`: what arrives on a connection, in the pieces in which reads get it, and what
-- has been sent.
use brqueue.Base.{ℕ, zero, suc, Option, none, some, List, [], ◌∷◌, ◌++◌, Result, ok, err}
use brqueue.Std.Fs.{Bytes}
use brqueue.Std.Io.{IoError}

-- A piece of data, or an error of the read that comes next.
pub data Arrival : Type 0 where
  chunk : Bytes → Arrival
  failure : IoError → Arrival

-- With `write_error`, every write fails.
pub record TcpStream : Type 0 where
  pub incoming : List Arrival
  pub outgoing : Bytes
  pub write_error : Option IoError

module _ {ℓ} {A : Type ℓ} where
  abbrev pub take : ℕ → List A → List A
  take zero xs = []
  take (suc n) [] = []
  take (suc n) (x ∷ xs) = x ∷ take n xs

  abbrev pub drop : ℕ → List A → List A
  drop zero xs = xs
  drop (suc n) [] = []
  drop (suc n) (x ∷ xs) = drop n xs

  abbrev pub replicate : ℕ → A → List A
  replicate zero a = []
  replicate (suc n) a = a ∷ replicate n a

-- What is left of a piece after a read.
abbrev pub leftover : Bytes → List Arrival → List Arrival
leftover [] rest = rest
leftover (b ∷ bs) rest = chunk (b ∷ bs) ∷ rest

read_some : TcpStream → ℕ → Result IoError Bytes × TcpStream
read_some s n = elim s.incoming [
  | [] ↦ (ok [], s)
  | failure e ∷ rest ↦ (err e, record s { incoming = rest })
  | chunk bytes ∷ rest ↦ (ok (take n bytes), record s { incoming = leftover (drop n bytes) rest })
]

-- `read` into a buffer of `n` bytes: at most one piece, and no bytes at the end of the connection.
unfoldable pub read : TcpStream → ℕ → Result IoError Bytes × TcpStream
unfolding read_some
read s zero = (ok [], s)
read s (suc n) = read_some s (suc n)

unfoldable pub write_all : TcpStream → Bytes → Result IoError (Unit {0}) × TcpStream
write_all s bytes = elim s.write_error [
  | none ↦ (ok tt, record s { outgoing = s.outgoing ++ bytes })
  | some e ↦ (err e, s)
]
