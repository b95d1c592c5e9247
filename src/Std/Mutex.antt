-- ===== src/Std/Mutex.antt =====
-- `std::sync::Mutex` and `RwLock`: a lock is poisoned once a thread has panicked while it held it.
use brqueue.Base.{Bool, false, Option, none, some, if◌then◌else◌}

pub record Mutex (A : Type 0) : Type 0 where
  pub poisoned : Bool
  pub value : A

abbrev pub new : {A : Type 0} → A → Mutex A
new a = record { poisoned = false; value = a }

-- `lock`, `read` and `write`: the guarded value, or the error of a poisoned lock.
abbrev pub lock : {A : Type 0} → Mutex A → Option A
lock m = if m.poisoned then none else some m.value

-- The lock after its holder has written through the guard.
abbrev pub write : {A : Type 0} → Mutex A → A → Mutex A
write m a = record m { value = a }
