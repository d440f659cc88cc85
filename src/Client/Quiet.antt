-- ===== src/Client/Quiet.antt =====
-- What a payment of the load generator needs of the state, to be settled in the next round.
use zkp_rollup.Base.{
  ℕ, ◌+◌, ◌<◌, ◌≤◌, ◌^◌, ◌≡◌, ◌≢◌, ◌∙◌, refl, sym, String, Bool, true, List, [], ◌∷◌, ◌++◌, none,
  some, filter, arith, option_eq, Bool-cases, inl, inr,
}
use zkp_rollup.Base.Int.{ℤ, pos}
use zkp_rollup.Python.Result.{ok}
use zkp_rollup.Python.Bytes.{Bytes}
use zkp_rollup.Utils.{hex_to_bytes}
use zkp_rollup.Types.{
  Transaction, TransactionRequest, status_eq, AccountDocument, AccountsCollection,
}
use zkp_rollup.Services.{Services}
use zkp_rollup.State.{World}
use zkp_rollup.State.Accounts.{find_account}
use zkp_rollup.MemPool.{is_due, insert_into_queue}
use zkp_rollup.MerkleTree.{accounts_collection, latest_nonce}
use zkp_rollup.MerkleTree.Leaf.Laws.{FitsU64}
use zkp_rollup.Block.{zero_address, handel_transaction_submission}
use zkp_rollup.Server.{submit_transaction}
use zkp_rollup.Client.{Signer, ClientAccount}
use zkp_rollup.Client.Accepted.{CanPay, request}

module _ (v : Services) (s : Signer v.crypto) where
  -- Nothing else is due, and the two accounts have no entries yet and numbers within eight bytes.
  pub record IsQuiet (layer_2_accounts : List ClientAccount) (a b : ℕ) (w : World v) : Type 0 where
    pub pay : CanPay v s layer_2_accounts a b w
    pub payee : AccountDocument
    pub payee_found : find_account v pay.receiver.pub_key w.users ≡ some payee
    pub payer_fresh : pay.document.account_updates ≡ []
    pub payee_fresh : payee.account_updates ≡ []
    pub payer_key : Bytes
    pub payee_key : Bytes
    pub payer_hex : hex_to_bytes pay.sender.pub_key ≡ ok payer_key
    pub payee_hex : hex_to_bytes pay.receiver.pub_key ≡ ok payee_key
    pub apart : payer_key ≢ payee_key
    pub payer_balance : ℕ
    pub payer_nonce : ℕ
    pub payee_balance : ℕ
    pub payee_nonce : ℕ
    pub payer_has :
        (pay.document.balance ≡ pos payer_balance) × (pay.document.nonce ≡ pos payer_nonce)
    pub payee_has : (payee.balance ≡ pos payee_balance) × (payee.nonce ≡ pos payee_nonce)
    pub payer_fits : (1 ≤ payer_balance) × (payer_balance < 2 ^ 53) × (payer_nonce + 1 < 2 ^ 64)
    pub payee_fits : (payee_balance + 1 < 2 ^ 53) × (payee_nonce < 2 ^ 64)
    pub nothing_due : filter (is_due none) (v.mongo.documents w.transactions) ≡ []
    pub no_withdrawal : pay.receiver.pub_key ≢ zero_address
    pub some_room : v.badge_size ≢ 0

  pub fits : (z : ℤ) (n : ℕ) → z ≡ pos n → n < 2 ^ 64 → FitsU64 z
  fits z n e h = rw e h

  pub filter-append_none :
      (p : Transaction → Bool) (ts : List Transaction) (t : Transaction)
      → filter p ts ≡ []
      → p t ≡ true
      → filter p (ts ++ t ∷ []) ≡ t ∷ []
  filter-append_none p [] t h e = rw e
  filter-append_none p (x ∷ xs) t h e = elim (Bool-cases (p x)) [
    | inl e2 ↦ let bad : x ∷ filter p xs ≡ [] = rw e2 at h in cc
    | inr e2 ↦ rw e2 (filter-append_none p xs t (rw e2 at h) e)
  ]

  fresh_account : AccountDocument → AccountsCollection
  fresh_account d = record {
    address = d.address;
    balance = d.balance;
    nonce = d.nonce;
    account_updates = [];
  }

  ok_inj : {x y : AccountsCollection} → ok x ≡ ok y → x ≡ y
  ok_inj h = cc

  pub fresh_nonce :
      (d : AccountDocument) (account : AccountsCollection)
      → d.account_updates ≡ []
      → accounts_collection d ≡ ok account
      → latest_nonce account ≡ d.nonce
  unfolding accounts_collection latest_nonce fresh_account
  fresh_nonce d account fresh valid =
      let read : accounts_collection d ≡ ok (fresh_account d) = rw fresh in
      let same : fresh_account d ≡ account = ok_inj (sym read ∙ valid) in rw (sym same) refl

  pub submitted-same :
      (request : TransactionRequest) (submission_id transaction_id : String) (now : ℕ) (w : World v)
      → let new = (submit_transaction v request submission_id transaction_id now w).1 in
        (new.badges ≡ w.badges)
        × (new.curr ≡ w.curr)
        × (new.sparse_merkle_tree ≡ w.sparse_merkle_tree)
  unfolding submit_transaction handel_transaction_submission insert_into_queue
  submitted-same request submission_id transaction_id now w =
      (ground arith, ground arith, ground arith)
