-- ===== src/Authentication/Operations.antt =====
-- The methods of `Authentication` in src/authentication/mod.rs, on the shared data and the disk.
use brqueue.Base.{
  ℕ, String, Bool, true, false, none, some, [], Result, ok, err, string_eq, if◌then◌else◌,
}
use brqueue.Std.Fs
use brqueue.Std.Fs.{Disk, Faults, Bytes, writing}
use brqueue.Std.Io.{IoError, not_found, other_kind}
use brqueue.Std.HashMap
use brqueue.Std.Mutex
use brqueue.Std.Mutex.{Mutex}
use brqueue.Authentication.Crypto.{User, AuthenticationData, Bcrypt, Bincode}
use brqueue.Authentication.Errors.{
  AuthenticationError, io_error, serialization_error, mutex_corrupted, bcrypt_error,
  user_already_exists,
}

pub record Authentication : Type 0 where
  pub content : Mutex AuthenticationData
  pub data_path : String

-- The rounds of a release build.
abbrev pub bcrypt_rounds : ℕ
bcrypt_rounds = 13

unfoldable pub new_user : String → String → User
new_user username pw_hash = record { username = username; password = pw_hash }

unfoldable pub new_data : AuthenticationData
new_data = record { users = [] }

module _ (crypt : Bcrypt) where
  unfoldable pub verify_user : Authentication → String → String → Result AuthenticationError Bool
  verify_user a username password = elim (Mutex.lock a.content) [
    | none ↦ err mutex_corrupted
    | some d ↦ elim (HashMap.get d.users username) [
      | none ↦ ok false
      | some user ↦ elim (crypt.verify password user.password) [
        | err e ↦ err (bcrypt_error e)
        | ok matches ↦ ok matches
      ]
    ]
  ]

module _ (crypt : Bcrypt) (code : Bincode) (faults : Faults) where
  -- What `AuthenticationData::add_user` does with the hash.
  unfoldable pub store_user :
      AuthenticationData
      → String
      → Result String String
      → Result String (Unit {0}) × AuthenticationData
  unfolding new_user
  store_user d username (err e) = (err e, d)
  store_user d username (ok pw_hash) =
      (ok tt, record { users = HashMap.insert d.users username (new_user username pw_hash) })

  -- `AuthenticationData::add_user`.
  unfoldable pub add_user_data :
      AuthenticationData → ℕ → String → String → Result String (Unit {0}) × AuthenticationData
  unfolding store_user
  add_user_data d salt username pw = store_user d username (crypt.hash salt pw bcrypt_rounds)

  -- What `load` does with the file: a file that is not there means no users.
  unfoldable pub parse_file : Result IoError Bytes → Result AuthenticationError AuthenticationData
  unfolding new_data
  parse_file (err e) = elim e.kind [ not_found ↦ ok new_data | other_kind ↦ err (io_error e) ]
  parse_file (ok bytes) = elim (code.deserialize_from bytes) [
    | err x ↦ err (serialization_error x)
    | ok d ↦ ok d
  ]

  unfoldable pub load : Disk → String → Result AuthenticationError AuthenticationData
  unfolding parse_file
  load disk path = parse_file (Fs.open_file faults disk path)

  unfoldable pub new : Disk → String → Result AuthenticationError Authentication
  new disk path = elim (load disk path) [
    | err e ↦ err e
    | ok d ↦ ok (record { content = Mutex.new d; data_path = path })
  ]

  -- The buffered writer writes when it is dropped, and ignores an error then.
  unfoldable pub drop_writer : Disk → String → Bytes → Disk
  drop_writer disk path bytes = elim (faults writing path) [
    | none ↦ HashMap.insert disk path bytes
    | some e ↦ disk
  ]

  -- What `save_changes` does once the file has been created, and so emptied.
  unfoldable pub write_data : Authentication → Disk → Result AuthenticationError (Unit {0}) × Disk
  unfolding drop_writer
  write_data a disk = elim (Mutex.lock a.content) [
    | none ↦ (err mutex_corrupted, disk)
    | some d ↦ elim (code.serialize d) [
      | err x ↦ (err (serialization_error x), disk)
      | ok bytes ↦ (ok tt, drop_writer disk a.data_path bytes)
    ]
  ]

  unfoldable pub save_changes : Authentication → Disk → Result AuthenticationError (Unit {0}) × Disk
  unfolding write_data
  save_changes a disk = elim (Fs.create faults disk a.data_path) [
    | err e ↦ (err (io_error e), disk)
    | ok created ↦ write_data a created
  ]

  -- The state after `guard.add_user(username, password)`, whose result is ignored.
  unfoldable pub added : Authentication → AuthenticationData → ℕ → String → String → Authentication
  unfolding add_user_data
  added a d salt username password = record a {
    content = Mutex.write a.content (add_user_data d salt username password).1;
  }

  -- `save_changes` with `?`, and then the result of the method.
  abbrev pub saved {ℓ} :
      {A : Type ℓ}
      → Authentication
      → A
      → Result AuthenticationError (Unit {0}) × Disk
      → Result AuthenticationError A × Authentication × Disk
  saved a x (err e, disk) = (err e, a, disk)
  saved a x (ok u, disk) = (ok x, a, disk)

  unfoldable pub add_user :
      Authentication
      → Disk
      → ℕ
      → String
      → String
      → Result AuthenticationError (Unit {0}) × Authentication × Disk
  add_user a disk salt username password = elim (Mutex.lock a.content) [
    | none ↦ (err mutex_corrupted, a, disk)
    | some d ↦
        if HashMap.contains_key d.users username
        then (err user_already_exists, a, disk)
        else (let b = added a d salt username password in saved b tt (save_changes b disk))
  ]

  unfoldable pub add_default_user :
      Authentication
      → Disk
      → ℕ
      → String
      → String
      → Result AuthenticationError Bool × Authentication × Disk
  add_default_user a disk salt username password = elim (Mutex.lock a.content) [
    | none ↦ (err mutex_corrupted, a, disk)
    | some d ↦
        if HashMap.is_empty d.users
        then (let b = added a d salt username password in saved b true (save_changes b disk))
        else (ok false, a, disk)
  ]
