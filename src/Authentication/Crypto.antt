-- ===== src/Authentication/Crypto.antt =====
-- The crates that src/authentication/mod.rs calls and does not implement.
use brqueue.Base.{ℕ, String, ◌≡◌, Bool, true, Result, ok, string_eq}
use brqueue.Std.Fs.{Bytes}
use brqueue.Std.HashMap
use brqueue.Std.HashMap.{HashMap}

-- A user with the hash of the password.
pub record User : Type 0 where
  pub username : String
  pub password : String

pub record AuthenticationData : Type 0 where
  pub users : HashMap String User

-- bcrypt: `hash` takes the random salt that the crate draws. A password verifies against its hash.
pub record Bcrypt : Type 0 where
  pub hash : ℕ → String → ℕ → Result String String
  pub verify : String → String → Result String Bool
  pub verify-hash :
      (salt : ℕ) (password : String) (rounds : ℕ) (hashed : String)
      → hash salt password rounds ≡ ok hashed
      → verify password hashed ≡ ok true

-- bincode, at the type of the saved data: what is read back has the users that were written.
pub record Bincode : Type 0 where
  pub serialize : AuthenticationData → Result String Bytes
  pub deserialize_from : Bytes → Result String AuthenticationData
  pub deserialize-serialize :
      (d : AuthenticationData) (bytes : Bytes)
      → serialize d ≡ ok bytes
      → (c : AuthenticationData) × (deserialize_from bytes ≡ ok c)
        × ((name : String) → HashMap.get c.users name ≡ HashMap.get d.users name)
