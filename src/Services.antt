-- ===== src/Services.antt =====
-- The code that the sequencer calls and that is not in the repository: the MongoDB driver, the
-- `smt` package, and hashes and signatures. Each is a record of operations, a parameter of the
-- model, and a second record of the documented behaviour that theorems take as a hypothesis.
-- Services/Memory.antt gives operations that behave so.
pub mod Mongo
pub mod Smt
pub mod Crypto
pub mod Web3
pub mod Node
pub mod Framework
pub mod Memory
use zkp_rollup.Base.{ℕ}

-- What the sequencer runs with: the three services, and `BADGE_SIZE` of its environment.
pub record Services : Type 1 where
  pub mongo : Mongo.Mongo
  pub smt : Smt.Smt
  pub crypto : Crypto.Crypto
  pub badge_size : ℕ

pub record IsServices (v : Services) : Type 1 where
  pub mongo : Mongo.IsMongo v.mongo
  pub smt : Smt.IsSmt v.smt
  pub crypto : Crypto.IsCrypto v.crypto
