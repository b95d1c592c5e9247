-- ===== src/Tests/AuthTests.antt =====
-- Tests of src/authentication/mod.rs.
use brqueue.Base.{String, ◌≡◌, refl, true, false, none, [], ◌∷◌, ok, err, string_eq, if◌then◌else◌}
use brqueue.Std.Fs.{Faults}
use brqueue.Std.HashMap
use brqueue.Std.Mutex
use brqueue.Authentication.Errors.{user_already_exists}
use brqueue.Authentication.Operations.{
  Authentication, save_changes, saved, verify_user, add_user, add_default_user,
}
use brqueue.Authentication.Login.{grown, add_user_exists, add_user_unhashed, add_default_user_lem}
use brqueue.Tests.Crates.{plain, no_hash, guest, guest_code}

abbrev no_faults : Faults
no_faults operation path = none

abbrev nobody : Authentication
nobody = record { content = Mutex.new (record { users = [] }); data_path = "storage/auth" }

abbrev somebody : Authentication
somebody = record nobody { content = Mutex.new (record { users = ("guest", guest) ∷ [] }) }

add_user_exists_example :
    add_user plain guest_code no_faults somebody [] 1 "guest" "pw"
    ≡ (err user_already_exists, somebody, [])
unfolding HashMap.contains_key string_eq
add_user_exists_example =
    add_user_exists plain guest_code no_faults somebody [] 1 "guest" "pw" refl refl

add_user_unhashed_example :
    ((add_user no_hash guest_code no_faults nobody [] 1 "guest" "pw").0
      ≡ (save_changes no_hash guest_code no_faults nobody []).0)
    × ((add_user no_hash guest_code no_faults nobody [] 1 "guest" "pw").1 ≡ nobody)
    × ((pw : String)
        → verify_user no_hash
            (add_user no_hash guest_code no_faults nobody [] 1 "guest" "pw").1
            "guest"
            pw
          ≡ ok false)
unfolding HashMap.contains_key
add_user_unhashed_example =
    add_user_unhashed no_hash guest_code no_faults nobody [] 1 "guest" "pw" "Invalid cost" refl refl
      refl

add_default_user_lem_example :
    add_default_user plain guest_code no_faults nobody [] 1 "guest" "guest" ≡ (
      if HashMap.is_empty nobody.content.value.users
      then saved plain guest_code no_faults
          (grown plain guest_code no_faults nobody [] 1 "guest" "guest")
          true
          (save_changes plain guest_code no_faults
            (grown plain guest_code no_faults nobody [] 1 "guest" "guest")
            [])
      else (ok false, nobody, []))
add_default_user_lem_example =
    add_default_user_lem plain guest_code no_faults nobody [] 1 "guest" "guest" refl
