-- ===== src/Authentication.antt =====
-- src/authentication/mod.rs: users and their passwords. The crates bcrypt and bincode, which the
-- module calls, are parameters.
pub mod Errors
pub mod Crypto
pub mod Operations
pub mod Login
pub mod Storing
