-- ===== src/Keygen.antt =====
-- keygen/main.cc
pub mod Merged
pub mod Separate
pub mod Command
use packet_distribution_syst.Archive.{Bytes}

pub record KeyPair : Type 0 where
  pub private_key : Bytes
  pub public_key : Bytes

-- std::runtime_error by its text, or a std::filesystem_error.
pub data Error : Type 0 where
  private_exists public_exists filesystem_error : Error

-- A call that throws leaves the state in which it stopped; the overflow of an int is undefined
-- behaviour, which leaves any.
pub data Result (S : Type 0) : Type 0 where
  done : S → Result S
  thrown : Error → S → Result S
  overflow : Result S
