-- ===== src/Authentication/Storing.antt =====
-- Users that src/authentication/mod.rs saves and loads again.
use brqueue.Base.{String, ◌≡◌, false, none, some, [], ok, string_eq, arith}
use brqueue.Std.Fs
use brqueue.Std.Fs.{Disk, Faults, Bytes, creating, writing, opening}
use brqueue.Std.HashMap
use brqueue.Std.Mutex
use brqueue.Authentication.Crypto.{AuthenticationData, Bcrypt, Bincode}
use brqueue.Authentication.Operations.{
  Authentication, write_data, drop_writer, save_changes, verify_user, load, new,
}

module _ (crypt : Bcrypt) (code : Bincode) (faults : Faults) where
  module _ (a : Authentication) (disk : Disk) (bytes : Bytes) (sound : a.content.poisoned ≡ false)
      (encoded : code.serialize a.content.value ≡ ok bytes)
      (creates : faults creating a.data_path ≡ none)
      (writes : faults writing a.data_path ≡ none) where
    save_changes-bytes :
        ((save_changes crypt code faults a disk).0 ≡ ok tt)
        × (HashMap.get (save_changes crypt code faults a disk).1 a.data_path ≡ some bytes)
    unfolding save_changes write_data drop_writer Fs.create
    save_changes-bytes =
        let emptied = HashMap.insert disk a.data_path [] in
        (ground arith, ground (arith, HashMap.get-insert emptied a.data_path a.data_path bytes))

    load-bytes :
        (saved : Disk) (d : AuthenticationData)
        → faults opening a.data_path ≡ none
        → HashMap.get saved a.data_path ≡ some bytes
        → code.deserialize_from bytes ≡ ok d
        → new crypt code faults saved a.data_path
          ≡ ok (record { content = Mutex.new d; data_path = a.data_path })
    unfolding new load Fs.open_file
    load-bytes saved d opens h k = ground arith

    -- If the lock is sound, the users can be serialized, and the file can be created, written and
    -- opened, then saving succeeds, and loading the file gives users for whom every user name and
    -- password verifies, or fails to, as before.
    pub new-save_changes :
        faults opening a.data_path ≡ none
        → (b : Authentication) × ((save_changes crypt code faults a disk).0 ≡ ok tt)
          × (new crypt code faults (save_changes crypt code faults a disk).1 a.data_path ≡ ok b)
          × ((name pw : String) → verify_user crypt b name pw ≡ verify_user crypt a name pw)
    unfolding verify_user
    new-save_changes opens =
        let (done, stored) = save_changes-bytes in
        let (d, read, same) = code.deserialize-serialize a.content.value bytes encoded in
        (
          record { content = Mutex.new d; data_path = a.data_path },
          done,
          load-bytes (save_changes crypt code faults a disk).1 d opens stored read,
          λ name pw. ground (arith, same name),
        )
