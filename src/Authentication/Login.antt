-- ===== src/Authentication/Login.antt =====
-- Who can log in after the methods of src/authentication/mod.rs.
use brqueue.Base.{
  ℕ, String, ◌≡◌, ◌∙◌, ap, subst, ◌≢◌, true, false, ok, err, string_eq, if◌then◌else◌, arith,
}
use brqueue.Std.Fs.{Disk, Faults}
use brqueue.Std.HashMap
use brqueue.Authentication.Crypto.{Bcrypt, Bincode}
use brqueue.Authentication.Errors.{user_already_exists}
use brqueue.Authentication.Operations.{
  Authentication, bcrypt_rounds, new_user, add_user_data, added, save_changes, verify_user,
  add_user, add_default_user, saved,
}

module _ (crypt : Bcrypt) (code : Bincode) (faults : Faults) where
  module _ (a : Authentication) (disk : Disk) (salt : ℕ) (username password : String) where
    abbrev pub grown : Authentication
    grown = added crypt code faults a a.content.value salt username password

    -- A user that is there already is not added again: `add_user` fails, and neither the users nor
    -- the file change.
    pub add_user_exists :
        a.content.poisoned ≡ false
        → HashMap.contains_key a.content.value.users username ≡ true
        → add_user crypt code faults a disk salt username password
          ≡ (err user_already_exists, a, disk)
    unfolding add_user
    add_user_exists h k = ground arith

    add_user_new :
        a.content.poisoned ≡ false
        → HashMap.contains_key a.content.value.users username ≡ false
        → ((add_user crypt code faults a disk salt username password).0
            ≡ (save_changes crypt code faults grown disk).0)
          × ((add_user crypt code faults a disk salt username password).1 ≡ grown)
          × ((add_user crypt code faults a disk salt username password).2
              ≡ (save_changes crypt code faults grown disk).1)
    unfolding add_user
    add_user_new h k = ground arith

    -- If the lock is sound, there is no user of that name and the password can be hashed, then
    -- the user can log in with the password after `add_user`, also if the file could not be
    -- written, and every other user logs in as before.
    add_user_verifies :
        (hashed : String)
        → a.content.poisoned ≡ false
        → HashMap.contains_key a.content.value.users username ≡ false
        → crypt.hash salt password bcrypt_rounds ≡ ok hashed
        → let b = (add_user crypt code faults a disk salt username password).1 in
          (verify_user crypt b username password ≡ ok true)
          × ((name pw : String)
              → name ≢ username
              → verify_user crypt b name pw ≡ verify_user crypt a name pw)
    unfolding verify_user added add_user_data
    add_user_verifies hashed h k x =
        let (_, b, _) = add_user_new h k in
        (
          rw b (
              ground (
                arith,
                crypt.verify-hash salt password bcrypt_rounds hashed x,
                HashMap.get-insert a.content.value.users username username
                    (new_user username hashed),
              )),
          λ name pw ne. rw b (
              ground (
                arith,
                HashMap.get-insert a.content.value.users username name (new_user username hashed),
              )),
        )

    pub grown-verifies :
        (hashed : String)
        → a.content.poisoned ≡ false
        → HashMap.contains_key a.content.value.users username ≡ false
        → crypt.hash salt password bcrypt_rounds ≡ ok hashed
        → verify_user crypt grown username password ≡ ok true
    grown-verifies hashed h k x =
        subst (λ b. verify_user crypt b username password ≡ ok true) (add_user_new h k).1
          (add_user_verifies hashed h k x).0

    -- If the lock is sound, there is no user of that name and the password cannot be hashed,
    -- `add_user` ignores that: it reports what saving the users reports, the users are as before,
    -- and nobody can log in under the name.
    pub add_user_unhashed :
        (x : String)
        → a.content.poisoned ≡ false
        → HashMap.contains_key a.content.value.users username ≡ false
        → crypt.hash salt password bcrypt_rounds ≡ err x
        → ((add_user crypt code faults a disk salt username password).0
            ≡ (save_changes crypt code faults a disk).0)
          × ((add_user crypt code faults a disk salt username password).1 ≡ a)
          × ((pw : String)
              → verify_user crypt
                  (add_user crypt code faults a disk salt username password).1
                  username
                  pw
                ≡ ok false)
    add_user_unhashed x h k y =
        let (r, b, _) = add_user_new h k in
        let same : grown ≡ a = unfold added add_user_data in ground arith in
        (
          r ∙ ap (λ z. (save_changes crypt code faults z disk).0) same,
          b ∙ same,
          λ pw. rw (b ∙ same) (
              unfold verify_user in
              ground (arith, HashMap.get-none_of_contains_key a.content.value.users username k)),
        )

    -- `add_default_user` adds the user if there is none yet; otherwise it answers false, and neither
    -- the users nor the file change.
    pub add_default_user_lem :
        a.content.poisoned ≡ false
        → add_default_user crypt code faults a disk salt username password ≡ (
            if HashMap.is_empty a.content.value.users
            then saved crypt code faults grown true (save_changes crypt code faults grown disk)
            else (ok false, a, disk))
    unfolding add_default_user
    add_default_user_lem h = ground arith
