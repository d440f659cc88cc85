-- ===== src/State.antt =====
-- What the sequencer keeps: the collections of its database, the tree of its
-- MerkleTreeController, and the fields of its BlockController.
pub mod Accounts
use zkp_rollup.Base.{ℕ, List}
use zkp_rollup.Types.{
  BadgeExecutionCause, Transaction, AccountDocument, TransactionBadge, CurrentBadge,
}
use zkp_rollup.Services.{Services}

pub record World (v : Services) : Type 0 where
  pub users : v.mongo.Collection AccountDocument
  pub transactions : v.mongo.Collection Transaction
  pub badges : v.mongo.Collection TransactionBadge
  pub curr : v.mongo.Collection CurrentBadge
  pub sparse_merkle_tree : v.smt.SparseMerkleTree
  pub queue : List BadgeExecutionCause
  pub transaction_counter : ℕ
  pub last_timestamp : ℕ
