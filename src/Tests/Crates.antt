-- ===== src/Tests/Crates.antt =====
-- Values that meet the assumptions on the crates, for the tests.
use brqueue.Base.{
  ℕ, zero, suc, ◌+◌, ◌-◌, ◌*◌, ◌/◌, ◌%◌, ◌^◌, ◌<◌, String, ◌≡◌, refl, ap, Bool, true, false, ◌&&◌,
  some, List, [], ◌∷◌, Result, ok, err, ok-injective, string_eq, ◌==◌, ==_self, if◌then◌else◌,
  arith, dec_lt, ite, Bool-cases, inl, inr,
}
use mathlib.Core.Logic.{if_pos}
use brqueue.Base.Int.{ℤ, pos, negsuc}
use brqueue.Std.Fs.{Bytes}
use brqueue.Std.Io.{IoError, other_kind}
use brqueue.Std.HashMap
use brqueue.Binary.{ByteOrder}
use brqueue.Authentication.Crypto.{User, AuthenticationData, Bcrypt, Bincode}
use brqueue.Rpc.RequestWrapper.{RequestWrapper, RequestMessage}
use brqueue.Client.Library.{Library}

-- The text of a number has as many characters as the number says.
abbrev pub to_text : ℕ → String
to_text zero = ""
to_text (suc n) = String.◌∷◌ "x" (to_text n)

abbrev pub from_text : String → ℕ
from_text String.[] = 0
from_text (String.◌∷◌ c s) = suc (from_text s)

pub from_text-to_text : (n : ℕ) → from_text (to_text n) ≡ n
from_text-to_text zero = refl
from_text-to_text (suc n) = ap suc (from_text-to_text n)

abbrev pub le_bytes : ℕ → Bytes
le_bytes n = n % 256 ∷ n / 256 % 256 ∷ n / 65536 % 256 ∷ n / 16777216 % 256 ∷ []

abbrev pub bit_pattern : ℤ → ℕ
bit_pattern (pos n) = n % 2 ^ 32
bit_pattern (negsuc n) = 2 ^ 32 - 1 - n % 2 ^ 32

abbrev pub signed : ℕ → ℤ
signed n = ite (dec_lt n (2 ^ 31)) (pos n) (negsuc (2 ^ 32 - n - 1))

abbrev pub from_le : Bytes → Result IoError ℤ
from_le (a ∷ b ∷ c ∷ d ∷ _) = ok (signed (a + 256 * b + 65536 * c + 16777216 * d))
from_le _ = err (record { kind = other_kind; text = "failed to fill whole buffer" })

pub from_le-le_bytes : (n : ℕ) → n < 2 ^ 31 → from_le (le_bytes (bit_pattern (pos n))) ≡ ok (pos n)
from_le-le_bytes n h =
    let m = n % 2 ^ 32 in
    let same : m % 256
          + 256 * (m / 256 % 256)
          + 65536 * (m / 65536 % 256)
          + 16777216 * (m / 16777216 % 256)
        ≡ n =
      omega arith in
    rw same (ap ok (if_pos (dec_lt n (2 ^ 31)) h (pos n) (negsuc (2 ^ 32 - n - 1))))

pub signed-bound : (m n : ℕ) → signed m ≡ pos n → n < 2 ^ 31
signed-bound m n h = ground arith

pub from_le-bound : (bytes : Bytes) (n : ℕ) → from_le bytes ≡ ok (pos n) → n < 2 ^ 31
from_le-bound (a ∷ b ∷ c ∷ d ∷ rest) n h =
    signed-bound (a + 256 * b + 65536 * c + 16777216 * d) n (ok-injective h)
from_le-bound [] n h = cc h
from_le-bound (a ∷ []) n h = cc h
from_le-bound (a ∷ b ∷ []) n h = cc h
from_le-bound (a ∷ b ∷ c ∷ []) n h = cc h

abbrev pub little_endian : ByteOrder
little_endian = record {
  write_i32 = λ n. le_bytes (bit_pattern n);
  read_i32 = from_le;
  length-write_i32 = λ n. refl;
  read_i32-write_i32 = from_le-le_bytes;
  read_i32-bound = from_le-bound;
}

-- A hash that is the password itself.
pub plain_verifies :
    (salt : ℕ) (password : String) (rounds : ℕ) (hashed : String)
    → ◌≡◌ {A = Result String String} (ok password) (ok hashed)
    → ◌≡◌ {A = Result String Bool} (ok (password == hashed)) (ok true)
plain_verifies salt password rounds hashed h =
    let same = ok-injective h in ap ok (rw (← same) (==_self password))

abbrev pub plain : Bcrypt
plain = record {
  hash = λ salt password rounds. ok password;
  verify = λ password hashed. ok (password == hashed);
  verify-hash = plain_verifies;
}

pub unhashed_verifies :
    (salt : ℕ) (password : String) (rounds : ℕ) (hashed : String)
    → ◌≡◌ {A = Result String String} (err "Invalid cost") (ok hashed)
    → ◌≡◌ {A = Result String Bool} (ok false) (ok true)
unhashed_verifies salt password rounds hashed h = cc

-- A bcrypt that cannot hash.
abbrev pub no_hash : Bcrypt
no_hash = record {
  hash = λ salt password rounds. err "Invalid cost";
  verify = λ password hashed. ok false;
  verify-hash = unhashed_verifies;
}

-- The same request for every non-empty message.
abbrev pub parse : Bytes → Result String RequestWrapper
parse [] = err "unexpected EOF"
parse (b ∷ _) = ok (record {
  ref_id = pos b;
  message = some (RequestMessage.authenticate (record { username = "guest"; password = "guest" }));
})

abbrev pub crates : Library ℕ
crates = record {
  to_string = to_text;
  parse_str = λ s. ok (from_text s);
  parse_str-to_string = λ id. ap ok (from_text-to_text id);
  parse_from_bytes = parse;
  write_to_vec = λ m. ok (1 ∷ 2 ∷ []);
  order = little_endian;
  crypt = plain;
}

-- The saved form of the data that holds the user guest with the hash guest, and nobody else.
abbrev pub guest : User
guest = record { username = "guest"; password = "guest" }

abbrev pub only_guest : AuthenticationData → Bool
only_guest d = elim d.users [
  | (name, u) ∷ [] ↦ name == "guest" && u.username == "guest" && u.password == "guest"
  | _ ↦ false
]

abbrev pub encode : AuthenticationData → Result String Bytes
encode d = if only_guest d then ok (1 ∷ []) else err "unsupported"

abbrev pub decode : Bytes → Result String AuthenticationData
decode [] = err "unexpected EOF"
decode (b ∷ _) = ok (record { users = ("guest", guest) ∷ [] })

same_user :
    (users : List (String × User))
    → only_guest (record { users = users }) ≡ true
    → (name : String) → HashMap.get (("guest", guest) ∷ []) name ≡ HashMap.get users name
unfolding HashMap.get
same_user [] h name = cc
same_user ((j, u) ∷ []) h name = ground arith
same_user (x ∷ y ∷ users) h name = cc

pub decode-encode :
    (d : AuthenticationData) (bytes : Bytes)
    → encode d ≡ ok bytes
    → (c : AuthenticationData) × (decode bytes ≡ ok c)
      × ((name : String) → HashMap.get c.users name ≡ HashMap.get d.users name)
decode-encode d bytes h = elim (Bool-cases (only_guest d)) [
  | inl yes_guest ↦
      let same : 1 ∷ [] ≡ bytes = ok-injective (rw yes_guest at h) in
      (record { users = ("guest", guest) ∷ [] }, rw (← same) refl, same_user d.users yes_guest)
  | inr other ↦ cc (ap (λ b. b) other, h)
]

abbrev pub guest_code : Bincode
guest_code = record {
  serialize = encode;
  deserialize_from = decode;
  deserialize-serialize = decode-encode;
}
