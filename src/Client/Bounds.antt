-- ===== src/Client/Bounds.antt =====
-- How long a message is that src/client.rs reads from a connection.
use brqueue.Base.{
  ℕ, zero, suc, ◌-◌, ◌<◌, ◌≤◌, ◌^◌, ◌≡◌, refl, ap, ◌∙◌, sym, List, [], ◌∷◌, Result, ok, err, length,
  length-append, arith,
}
use brqueue.Base.Int.{ℤ, pos, negsuc}
use brqueue.Std.Io.{IoError}
use brqueue.Std.Fs.{Bytes}
use brqueue.Std.Net.{TcpStream, Arrival, chunk, failure, read, take, replicate}
use brqueue.Binary.{get_size}
use brqueue.Client.Library.{Library}
use brqueue.Client.Framing.{message, filled, read_body, read_sized, after_size, read_message}

length-take : (n : ℕ) (bytes : Bytes) → length (take n bytes) ≤ n
length-take zero bytes = omega arith
length-take (suc n) [] = omega arith
length-take (suc n) (b ∷ bytes) = omega (arith, length-take n bytes)

length-replicate : (n : ℕ) → length (replicate {A = ℕ} n 0) ≡ n
length-replicate zero = refl
length-replicate (suc n) = ap suc (length-replicate n)

-- A read gets at most as many bytes as its buffer has room for.
length-read :
    (s : TcpStream) (n : ℕ) (bytes : Bytes) (t : TcpStream)
    → read s n ≡ (ok bytes, t)
    → length bytes ≤ n
unfolding read
length-read s zero bytes t h = ground arith
length-read s (suc n) bytes t h = from s.incoming refl
  where
    from : (arrivals : List Arrival) → s.incoming ≡ arrivals → length bytes ≤ suc n
    from [] k = ground arith
    from (failure e ∷ rest) k = ground arith
    from (chunk piece ∷ rest) k = ground (arith, length-take (suc n) piece)

length-filled : (n : ℕ) (bytes : Bytes) → length bytes ≤ n → length (filled n bytes) ≡ n
length-filled n bytes h = omega (
  arith,
  length-append bytes (replicate (n - length bytes) 0),
  length-replicate (n - length bytes),
)

module _ {U : Type 0} (lib : Library U) where
  read_body-length :
      (size : ℕ) (s t : TcpStream) (content : Bytes) (r : Result IoError Bytes × TcpStream)
      → read s size ≡ r
      → read_body lib size r ≡ (message content, t)
      → length content ≡ size
  unfolding read_body
  read_body-length size s t content (ok bytes, u) e h =
      let same : filled size bytes ≡ content = cc h in
      ap length (sym same) ∙ length-filled size bytes (length-read s size bytes u e)
  read_body-length size s t content (err x, u) e h = cc h

  read_sized-length :
      (s t : TcpStream) (content : Bytes) (r : Result IoError ℤ)
      → read_sized lib s r ≡ (message content, t)
      → r ≡ ok (pos (length content))
  unfolding read_sized
  read_sized-length s t content (ok (pos size)) h =
      ap (λ n. ok (pos n)) (sym (read_body-length size s t content (read s size) refl h))
  read_sized-length s t content (ok (negsuc n)) h = cc h
  read_sized-length s t content (err x) h = cc h

  after_size-length :
      (t : TcpStream) (content : Bytes) (r : Result IoError Bytes × TcpStream)
      → after_size lib r ≡ (message content, t)
      → (head : Bytes) × (r.0 ≡ ok head)
        × (get_size lib.order (filled 4 head) ≡ ok (pos (length content)))
  unfolding after_size
  after_size-length t content (ok [], u) h = cc h
  after_size-length t content (ok (b ∷ bytes), u) h =
      (b ∷ bytes, refl, read_sized-length u t content _ h)
  after_size-length t content (err x, u) h = cc h

  -- Whatever arrives on a connection, before a login or after it: a message that `read_message` returns
  -- has exactly the length that the first bytes, filled up with zeros to four, announce,
  -- and it is shorter than 2^31 bytes.
  pub read_message-length :
      (s t : TcpStream) (content : Bytes)
      → read_message lib s ≡ (message content, t)
      → ((head : Bytes) × ((read s 4).0 ≡ ok head)
          × (get_size lib.order (filled 4 head) ≡ ok (pos (length content))))
        × (length content < 2 ^ 31)
  unfolding read_message get_size
  read_message-length s t content h =
      let (head, e, announced) = after_size-length t content (read s 4) h in
      ((head, e, announced), lib.order.read_i32-bound (filled 4 head) (length content) announced)
