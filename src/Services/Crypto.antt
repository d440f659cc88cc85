-- ===== src/Services/Crypto.antt =====
-- `hashlib.sha256`, and `eth_keys.keys`, whose constructors and check may raise.
use zkp_rollup.Base.{◌≡◌, ◌<◌, Bool, length, All}
use zkp_rollup.Python.Result.{Result}
use zkp_rollup.Python.Bytes.{Bytes}

pub record Crypto : Type 1 where
  pub sha256 : Bytes → Bytes
  pub Signature : Type 0
  pub PublicKey : Type 0
  pub signature_of : Bytes → Result Signature
  pub public_key_of : Bytes → Result PublicKey
  pub verify_msg : PublicKey → Bytes → Signature → Result Bool

pub record IsCrypto (c : Crypto) : Type 0 where
  pub digest_size : (msg : Bytes) → length (c.sha256 msg) ≡ 32
  pub digest_bytes : (msg : Bytes) → All (λ b. b < 256) (c.sha256 msg)
