-- ===== src/Block/Hash/Laws.antt =====
-- `create_rolling_transaction_hash` on a batch that grows by one transaction.
use zkp_rollup.Base.{◌≡◌, refl, ◌++◌, List, [], ◌∷◌, Option, none, some}
use zkp_rollup.Python.Result.{Result, ok, raised, ◌>>=◌}
use zkp_rollup.Python.Bytes.{Bytes}
use zkp_rollup.Types.{Transaction}
use zkp_rollup.Services.{Services}
use zkp_rollup.Block.Hash.{create_transaction_hash, rolling_from, create_rolling_transaction_hash}

module _ (v : Services) where
  -- One more hash on top of a rolling hash.
  abbrev pub roll : Result Bytes → Transaction → Result Bytes
  roll before t = do
    rolling ← before
    tx_hash ← create_transaction_hash v t
    ok (v.crypto.sha256 (rolling ++ tx_hash))

  rolling_step :
      (r : Result Bytes) (f g : Bytes → Result Bytes) (t : Transaction)
      → ((h : Bytes) → f h ≡ roll (g h) t)
      → (r >>= f) ≡ roll (r >>= g) t
  rolling_step (ok h) f g t same = same h
  rolling_step (raised e) f g t same = refl

  rolling_from-append :
      (h : Option Bytes) (ts : List Transaction) (t : Transaction)
      → rolling_from v h (ts ++ t ∷ []) ≡ roll (rolling_from v h ts) t
  unfolding rolling_from
  rolling_from-append h [] t = refl
  rolling_from-append h (s ∷ ts) t =
      rolling_step (create_transaction_hash v s) _ _ t (λ x. rolling_from-append (some _) ts t)

  -- The rolling hash of a batch with one more transaction is the hash of the batch's rolling hash
  -- followed by the hash of the transaction: H(H(0, t_1), t_2) and so on. It raises where the hash of
  -- some transaction does.
  pub create_rolling_transaction_hash-append :
      (ts : List Transaction) (t : Transaction)
      → create_rolling_transaction_hash v (ts ++ t ∷ [])
        ≡ roll (create_rolling_transaction_hash v ts) t
  unfolding create_rolling_transaction_hash
  create_rolling_transaction_hash-append ts t = rolling_from-append none ts t
