-- ===== src/Binary.antt =====
-- src/binary.rs: the size of a frame as a 32-bit little endian number, by the crate byteorder.
use brqueue.Base.{ℕ, ◌<◌, ◌^◌, ◌≡◌, Result, ok, length}
use brqueue.Base.Int.{ℤ, pos}
use brqueue.Std.Fs.{Bytes}
use brqueue.Std.Io.{IoError}

-- The methods of byteorder that the program calls: a number is written as four bytes, and read back
-- from four bytes. It has 32 bits.
pub record ByteOrder : Type 0 where
  pub write_i32 : ℤ → Bytes
  pub read_i32 : Bytes → Result IoError ℤ
  pub length-write_i32 : (n : ℤ) → length (write_i32 n) ≡ 4
  pub read_i32-write_i32 : (n : ℕ) → n < 2 ^ 31 → read_i32 (write_i32 (pos n)) ≡ ok (pos n)
  pub read_i32-bound : (bytes : Bytes) (n : ℕ) → read_i32 bytes ≡ ok (pos n) → n < 2 ^ 31

module _ (order : ByteOrder) where
  unfoldable pub get_size : Bytes → Result IoError ℤ
  get_size content = order.read_i32 content

  unfoldable pub get_size_array : ℤ → Result IoError Bytes
  get_size_array size = ok (order.write_i32 size)
