-- ===== src/Client/Frames.antt =====
-- Messages of src/client.rs that are framed at one end of a connection and read at the other.
use brqueue.Base.{
  ℕ, zero, suc, ◌-◌, ◌<◌, ◌≤◌, ◌^◌, ◌%◌, ◌≡◌, refl, ap, ◌∙◌, sym, List, [], ◌∷◌, ◌++◌, append_assoc,
  append-nil, ok, ok-injective, length, length-append, arith, dec_lt,
}
use mathlib.Core.Logic.{if_pos}
use brqueue.Base.Int.{pos, negsuc}
use brqueue.Std.Fs.{Bytes}
use brqueue.Std.Net.{TcpStream, Arrival, chunk, read, leftover, take, drop, replicate}
use brqueue.Binary.{get_size, get_size_array}
use brqueue.Client.Library.{Library}
use brqueue.Client.Framing.{
  message, as_i32, filled, read_body, read_sized, after_size, read_message, frame,
}

as_i32-pos : (n : ℕ) → n < 2 ^ 31 → as_i32 n ≡ pos n
unfolding as_i32
as_i32-pos n h =
    let same : n % 2 ^ 32 ≡ n = omega arith in
    rw same (if_pos (dec_lt n (2 ^ 31)) h (pos n) (negsuc (2 ^ 32 - n - 1)))

take-append : (n : ℕ) (w x : Bytes) → length w ≡ n → take n (w ++ x) ≡ w
take-append zero [] x h = refl
take-append zero (b ∷ w) x h = absurd (omega arith)
take-append (suc n) [] x h = absurd (omega arith)
take-append (suc n) (b ∷ w) x h = ap (◌∷◌ b) (take-append n w x (omega arith))

drop-append : (n : ℕ) (w x : Bytes) → length w ≡ n → drop n (w ++ x) ≡ x
drop-append zero [] x h = refl
drop-append zero (b ∷ w) x h = absurd (omega arith)
drop-append (suc n) [] x h = absurd (omega arith)
drop-append (suc n) (b ∷ w) x h = drop-append n w x (omega arith)

take-le : (n : ℕ) (w : Bytes) → length w ≤ n → take n w ≡ w
take-le zero [] h = refl
take-le zero (b ∷ w) h = absurd (omega arith)
take-le (suc n) [] h = refl
take-le (suc n) (b ∷ w) h = ap (◌∷◌ b) (take-le n w (omega arith))

drop-le : (n : ℕ) (w : Bytes) → length w ≤ n → drop n w ≡ []
drop-le zero [] h = refl
drop-le zero (b ∷ w) h = absurd (omega arith)
drop-le (suc n) [] h = refl
drop-le (suc n) (b ∷ w) h = drop-le n w (omega arith)

filled_full : (n : ℕ) (w : Bytes) → length w ≡ n → filled n w ≡ w
filled_full n w h = let none_left : n - length w ≡ 0 = omega arith in rw none_left (append-nil w)

-- A read of a piece that holds at least the bytes that are wanted.
read-chunk :
    (s : TcpStream) (w x : Bytes) (n : ℕ) (rest : List Arrival)
    → s.incoming ≡ chunk (w ++ x) ∷ rest
    → length w ≡ suc n
    → read s (suc n) ≡ (ok w, record s { incoming = leftover x rest })
unfolding read
read-chunk s w x n rest h k = ground (arith, take-append (suc n) w x k, drop-append (suc n) w x k)

-- A read of a piece that does not hold all the bytes that are wanted.
read-short :
    (s : TcpStream) (w : Bytes) (n : ℕ) (rest : List Arrival)
    → s.incoming ≡ chunk w ∷ rest
    → length w ≤ suc n
    → read s (suc n) ≡ (ok w, record s { incoming = rest })
unfolding read
read-short s w n rest h k = ground (arith, take-le (suc n) w k, drop-le (suc n) w k)

module _ {U : Type 0} (lib : Library U) where
  -- The four bytes of the size of a message.
  abbrev pub size_of : Bytes → Bytes
  size_of content = lib.order.write_i32 (pos (length content))

  frame_lem :
      (content : Bytes)
      → length content < 2 ^ 31
      → frame lib content ≡ ok (size_of content ++ content)
  unfolding frame get_size_array
  frame_lem content h = rw (as_i32-pos (length content) h) refl

  after_size-ok :
      (s : TcpStream) (w : Bytes)
      → length w ≡ 4
      → after_size lib (ok w, s) ≡ read_sized lib s (get_size lib.order w)
  unfolding after_size
  after_size-ok s [] h = absurd (omega arith)
  after_size-ok s (b ∷ bytes) h =
      ap (λ w. read_sized lib s (get_size lib.order w)) (filled_full 4 (b ∷ bytes) h)

  -- After the size has been read, the body is read into a buffer of that size.
  read_message-size :
      (s : TcpStream) (content x : Bytes) (rest : List Arrival)
      → length content < 2 ^ 31
      → s.incoming ≡ chunk (size_of content ++ x) ∷ rest
      → read_message lib s
        ≡ read_body lib
            (length content)
            (read (record s { incoming = leftover x rest }) (length content))
  unfolding read_message get_size read_sized
  read_message-size s content x rest fits h =
      let t : TcpStream = record s { incoming = leftover x rest } in
      ap (after_size lib) (
        read-chunk s (size_of content) x 3 rest h
          (lib.order.length-write_i32 (pos (length content))))
      ∙ after_size-ok t (size_of content) (lib.order.length-write_i32 (pos (length content)))
      ∙ ap (read_sized lib t) (lib.order.read_i32-write_i32 (length content) fits)

  read_body-chunk :
      (s : TcpStream) (content more : Bytes) (rest : List Arrival)
      → read_body lib
          (length content)
          (read (record s { incoming = leftover (content ++ more) rest }) (length content))
        ≡ (message content, record s { incoming = leftover more rest })
  unfolding read_body read
  read_body-chunk s [] more rest = refl
  read_body-chunk s (b ∷ content) more rest =
      let t : TcpStream = record s { incoming = chunk ((b ∷ content) ++ more) ∷ rest } in
      ap (read_body lib (length (b ∷ content)))
        (read-chunk t (b ∷ content) more (length content) rest refl refl)
      ∙ ap (λ w. (message w, record s { incoming = leftover more rest }))
          (filled_full (length (b ∷ content)) (b ∷ content) refl)

  -- A message of less than 2^31 bytes whose frame arrives in one piece is read whole, and what
  -- follows it in the piece is left for the next read.
  pub read_message-frame :
      (s : TcpStream) (content bytes more : Bytes) (rest : List Arrival)
      → length content < 2 ^ 31
      → frame lib content ≡ ok bytes
      → s.incoming ≡ chunk (bytes ++ more) ∷ rest
      → read_message lib s ≡ (message content, record s { incoming = leftover more rest })
  read_message-frame s content bytes more rest fits framed h =
      let same : bytes ≡ size_of content ++ content =
        ok-injective (sym framed ∙ frame_lem content fits) in
      let split : s.incoming ≡ chunk (size_of content ++ (content ++ more)) ∷ rest =
        h
        ∙ ap (λ xs. chunk xs ∷ rest)
            (ap (λ xs. xs ++ more) same ∙ append_assoc (size_of content) content more) in
      read_message-size s content (content ++ more) rest fits split
      ∙ read_body-chunk s content more rest

  -- If the end of a message comes in a later piece than its beginning, the message is read with
  -- zeros in place of its end, and the end is left to be read as the size of a next message.
  pub read_message_short :
      (s : TcpStream) (b : ℕ) (head tail : Bytes) (rest : List Arrival)
      → length ((b ∷ head) ++ tail) < 2 ^ 31
      → s.incoming ≡ chunk (size_of ((b ∷ head) ++ tail) ++ (b ∷ head)) ∷ chunk tail ∷ rest
      → read_message lib s ≡ (
        message ((b ∷ head) ++ replicate (length tail) 0),
        record s { incoming = chunk tail ∷ rest },
      )
  unfolding read_body
  read_message_short s b head tail rest fits h =
      let start = b ∷ head in
      let n = length (head ++ tail) in
      let t : TcpStream = record s { incoming = chunk start ∷ chunk tail ∷ rest } in
      let sum = length-append head tail in
      let missing : suc n - length start ≡ length tail = omega arith in
      read_message-size s (start ++ tail) start (chunk tail ∷ rest) fits h
      ∙ ap (read_body lib (suc n)) (read-short t start n (chunk tail ∷ rest) refl (omega arith))
      ∙ ap (λ k. (message (start ++ replicate k 0), record s { incoming = chunk tail ∷ rest }))
          missing
