-- ===== src/Std/Io.antt =====
-- `std::io::Error`: the kind, on which the program branches, and the text that it prints.
use brqueue.Base.{String}

pub data ErrorKind : Type 0 where
  not_found other_kind : ErrorKind

pub record IoError : Type 0 where
  pub kind : ErrorKind
  pub text : String
