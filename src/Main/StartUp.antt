-- ===== src/Main/StartUp.antt =====
-- Who can log in after src/main.rs has started.
use brqueue.Base.{
  ℕ, String, ◌≡◌, refl, subst, ap, ◌∙◌, Bool, true, false, none, [], ◌∷◌, ok, Eq, string_eq, arith,
}
use brqueue.Std.Fs
use brqueue.Std.Fs.{Bytes, Disk, Faults, opening, creating, writing}
use brqueue.Std.HashMap
use brqueue.Std.HashMap.{HashMap}
use brqueue.Std.Mutex
use brqueue.QueueServer.Runtime.{Runtime}
use brqueue.QueueServer.Operations
use brqueue.QueueServer.Operations.{QueueServer}
use brqueue.Authentication.Crypto.{User, Bcrypt, Bincode}
use brqueue.Authentication.Operations.{
  Authentication, bcrypt_rounds, new_user, verify_user, save_changes, add_default_user, new, load,
  added, add_user_data,
}
use brqueue.Authentication.Login.{grown, grown-verifies, add_default_user_lem}
use brqueue.Authentication.Storing.{new-save_changes}
use brqueue.Main.{listening, start_up}

module _ (crypt : Bcrypt) where
  users-is_empty :
      (users : HashMap String User) (path name pw : String)
      → verify_user crypt
          (record { content = Mutex.new (record { users = users }); data_path = path })
          name
          pw
        ≡ ok true
      → HashMap.is_empty users ≡ false
  unfolding verify_user HashMap.is_empty HashMap.get
  users-is_empty [] path name pw h = cc h
  users-is_empty (x ∷ users) path name pw h = refl

module _ (crypt : Bcrypt) (code : Bincode) (faults : Faults) where
  new_sound :
      (disk : Disk) (path : String) (a : Authentication)
      → new crypt code faults disk path ≡ ok a
      → a ≡ record { content = Mutex.new a.content.value; data_path = path }
  unfolding new
  new_sound disk path a h = ground arith

  nobody_yet :
      (disk : Disk) (path : String)
      → faults opening path ≡ none
      → HashMap.get disk path ≡ none
      → new crypt code faults disk path
        ≡ ok (record { content = Mutex.new (record { users = [] }); data_path = path })
  unfolding new load Fs.open_file
  nobody_yet disk path opens h = ground arith

  kept :
      (disk : Disk) (salt : ℕ) (path : String) (a : Authentication)
      → new crypt code faults disk path ≡ ok a
      → verify_user crypt a "guest" "guest" ≡ ok true
      → add_default_user crypt code faults a disk salt "guest" "guest" ≡ (ok false, a, disk)
  kept disk salt path a h guest =
      let sound = new_sound disk path a h in
      let there =
        users-is_empty crypt a.content.value.users path "guest" "guest"
          (subst (λ b. verify_user crypt b "guest" "guest" ≡ ok true) sound guest) in
      add_default_user_lem crypt code faults a disk salt "guest" "guest"
        (ap (λ b. b.content.poisoned) sound)
      ∙ rw there refl

module _ {U : Type 0} ⦃e : Eq U⦄ (crypt : Bcrypt) (code : Bincode) (faults : Faults) where
  start_up-listening :
      (R : Runtime U Bytes) (qs : QueueServer R) (disk after : Disk) (salt : ℕ)
      (a b : Authentication) (grew : Bool)
      → Operations.new R ≡ ok qs
      → new crypt code faults disk "storage/auth" ≡ ok a
      → add_default_user crypt code faults a disk salt "guest" "guest" ≡ (ok grew, b, after)
      → start_up R crypt code faults disk salt (ok tt)
        ≡ (listening (record { queue_server = qs; auth = b }), after)
  unfolding start_up
  start_up-listening R qs disk after salt a b grew q h k = rw (q, h, k) refl

  -- If the queue server can be opened, users are loaded among whom the user guest logs in with the
  -- password guest, and the socket is bound, then `main` comes to its loop with the users that were
  -- loaded, and leaves their file as it is.
  start_up-kept :
      (R : Runtime U Bytes) (qs : QueueServer R) (disk : Disk) (salt : ℕ) (a : Authentication)
      → Operations.new R ≡ ok qs
      → new crypt code faults disk "storage/auth" ≡ ok a
      → verify_user crypt a "guest" "guest" ≡ ok true
      → start_up R crypt code faults disk salt (ok tt)
        ≡ (listening (record { queue_server = qs; auth = a }), disk)
  start_up-kept R qs disk salt a q h guest =
      start_up-listening R qs disk disk salt a a false q h
        (kept crypt code faults disk salt "storage/auth" a h guest)

  module _ (R : Runtime U Bytes) (qs : QueueServer R) (disk : Disk) (salt : ℕ) (hashed : String)
      (bytes : Bytes) where
    abbrev only_guest : Authentication
    only_guest = record {
      content = Mutex.new (record { users = ("guest", new_user "guest" hashed) ∷ [] });
      data_path = "storage/auth";
    }

    abbrev nobody : Authentication
    nobody = record { content = Mutex.new (record { users = [] }); data_path = "storage/auth" }

    grown-nobody :
        crypt.hash salt "guest" bcrypt_rounds ≡ ok hashed
        → grown crypt code faults nobody disk salt "guest" "guest" ≡ only_guest
    unfolding added add_user_data HashMap.insert
    grown-nobody hashes = ground (arith, hashes)

    guest_verifies :
        crypt.hash salt "guest" bcrypt_rounds ≡ ok hashed
        → verify_user crypt only_guest "guest" "guest" ≡ ok true
    unfolding HashMap.contains_key
    guest_verifies hashes =
        subst (λ a. verify_user crypt a "guest" "guest" ≡ ok true) (grown-nobody hashes)
          (grown-verifies crypt code faults nobody disk salt "guest" "guest" hashed refl refl
            hashes)

    guest_added :
        crypt.hash salt "guest" bcrypt_rounds ≡ ok hashed
        → (save_changes crypt code faults only_guest disk).0 ≡ ok tt
        → add_default_user crypt code faults nobody disk salt "guest" "guest"
          ≡ (ok true, only_guest, (save_changes crypt code faults only_guest disk).1)
    unfolding HashMap.is_empty
    guest_added hashes saves =
        add_default_user_lem crypt code faults nobody disk salt "guest" "guest" refl
        ∙ rw (grown-nobody hashes, saves) refl

    -- Suppose that the queue server can be opened and there is no file of the users, but one can be
    -- created, written and opened, that the password guest can be hashed and the first user
    -- serialized, and that the socket is bound. Then `main` comes to its loop, and the user guest
    -- logs in with the password guest. And when the program is started again on the disk that this
    -- leaves, with a queue server that can be opened, it comes to its loop again, leaves the file of
    -- the users as it is, and lets in whom it let in before.
    pub start_up-twice :
        (S : Runtime U Bytes) (rs : QueueServer S) (other : ℕ)
        → Operations.new R ≡ ok qs
        → Operations.new S ≡ ok rs
        → HashMap.get disk "storage/auth" ≡ none
        → faults opening "storage/auth" ≡ none
        → faults creating "storage/auth" ≡ none
        → faults writing "storage/auth" ≡ none
        → crypt.hash salt "guest" bcrypt_rounds ≡ ok hashed
        → code.serialize (record { users = ("guest", new_user "guest" hashed) ∷ [] }) ≡ ok bytes
        → (a : Authentication) × (b : Authentication) × (left : Disk) × (start_up R crypt code
              faults disk salt
              (ok tt)
            ≡ (listening (record { queue_server = qs; auth = a }), left))
          × (verify_user crypt a "guest" "guest" ≡ ok true)
          × (start_up S crypt code faults left other (ok tt)
              ≡ (listening (record { queue_server = rs; auth = b }), left))
          × ((name pw : String) → verify_user crypt b name pw ≡ verify_user crypt a name pw)
    start_up-twice S rs other q k absent opens creates writes hashes encoded =
        let (b, saves, loads, same) =
          new-save_changes crypt code faults only_guest disk bytes refl encoded creates writes
            opens in
        let left = (save_changes crypt code faults only_guest disk).1 in
        let guest = guest_verifies hashes in
        (
          only_guest,
          b,
          left,
          start_up-listening R qs disk left salt nobody only_guest true q
              (nobody_yet crypt code faults disk "storage/auth" opens absent)
              (guest_added hashes saves),
          guest,
          start_up-kept S rs left other b k loads (same "guest" "guest" ∙ guest),
          same,
        )
