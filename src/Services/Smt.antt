-- ===== src/Services/Smt.antt =====
-- The `smt` package: a sparse Merkle tree from byte keys to byte values.
use zkp_rollup.Base.{◌≡◌, ◌≢◌, String, List, Option, bytes_discrete, ite, arith}
use zkp_rollup.Python.Bytes.{Bytes}

-- What `prove` returns.
pub record SparseMerkleProof : Type 0 where
  pub sidenodes : List Bytes
  pub non_membership_leafdata : Option Bytes
  pub sibling_data : Option Bytes

pub record Smt : Type 1 where
  pub SparseMerkleTree : Type 0
  pub empty : SparseMerkleTree
  pub update : Bytes → Bytes → SparseMerkleTree → SparseMerkleTree
  pub get : SparseMerkleTree → Bytes → Bytes
  pub root_as_hex : SparseMerkleTree → String
  pub prove : SparseMerkleTree → Bytes → SparseMerkleProof

-- An update writes the leaf of its key and no other: the package finds a leaf by the hash of the
-- key, so this takes no two keys in use to have the same hash.
pub record IsSmt (m : Smt) : Type 0 where
  pub get-update :
      (t : m.SparseMerkleTree) (k v j : Bytes)
      → m.get (m.update k v t) j ≡ ite (bytes_discrete j k) v (m.get t j)

module _ (m : Smt) (lawful : IsSmt m) (t : m.SparseMerkleTree) (k v : Bytes) where
  pub get-update_self : m.get (m.update k v t) k ≡ v
  get-update_self = ground (arith, lawful.get-update t k v k)

  pub get-update_ne : (j : Bytes) → j ≢ k → m.get (m.update k v t) j ≡ m.get t j
  get-update_ne j h = ground (arith, lawful.get-update t k v j)
