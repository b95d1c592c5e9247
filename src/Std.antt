-- ===== src/Std.antt =====
-- The parts of Rust's standard library that the program computes with.
pub mod HashSet
pub mod HashMap
pub mod Mutex
pub mod Io
pub mod Fs
pub mod BufWriter
pub mod Net
