-- ===== src/MerkleTree/Check.antt =====
-- `_check_tree_invariants_for_update` of sequencer/src/MerkleTreeController.py.
use zkp_rollup.Base.{
  ◌≡◌, ◌≢◌, ◌↔◌, ◌⊎◌, inl, inr, refl, String, Bool, true, false, ◌&&◌, Option, none, some, arith,
  Bool-cases,
}
use zkp_rollup.Base.Int.{ℤ, ◌≤ℤ◌, leb_ℤ, eq_of_parts}
use zkp_rollup.Python.Result.{Result, ok, raised, tree_invariants_failed}
use zkp_rollup.Types.{Transaction, AccountDocument, AccountsCollection}
use zkp_rollup.Services.{Services}
use zkp_rollup.State.{World}
use zkp_rollup.State.Accounts.{find_account}
use zkp_rollup.MerkleTree.{
  accounts_collection, latest_nonce, latest_balance, nonce_equal, is_there,
  check_tree_invariants_for_update, make_rollup_transaction_between_existing_users,
}

nonce_equal_iff : (n : ℤ) (m : Option ℤ) → (nonce_equal n m ≡ true) ↔ (m ≡ some n)
nonce_equal_iff n none = (λ h. cc, λ h. cc)
nonce_equal_iff n (some m) = ground (arith, eq_of_parts n m)

leb_ℤ_iff : (a b : ℤ) → (leb_ℤ a b ≡ true) ↔ (a ≤ℤ b)
leb_ℤ_iff a b = ground arith

is_there_iff : (o : Option AccountDocument) → (is_there o ≡ true) ↔ (o ≢ none)
is_there_iff none = (λ h. cc, λ h. absurd (h refl))
is_there_iff (some a) = (λ h. λ e. cc, λ h. refl)

&&_iff : (a b : Bool) → ((a && b) ≡ true) ↔ ((a ≡ true) × (b ≡ true))
&&_iff a b = ground arith

-- The outcome as a function of the two look-ups.
judge : Transaction → Option AccountDocument → Result AccountsCollection → Bool
judge t receiver (raised e) = false
judge t receiver (ok account) =
    leb_ℤ t.amount (latest_balance account)
    && nonce_equal (latest_nonce account) t.nonce
    && is_there receiver

verdict : Transaction → Option AccountDocument → Option AccountDocument → Bool
unfolding judge
verdict t receiver none = false
verdict t receiver (some document) = judge t receiver (accounts_collection document)

module _ (v : Services) (w : World v) (t : Transaction) (receiver : String) where
  -- What a transfer must meet: the sender has an account that can be read, its latest balance
  -- covers the amount, its latest nonce is the transaction's, and the receiver has an account.
  pub record Accepts : Type 0 where
    pub document : AccountDocument
    pub account : AccountsCollection
    pub found : find_account v t.sender w.users ≡ some document
    pub valid : accounts_collection document ≡ ok account
    pub covered : t.amount ≤ℤ latest_balance account
    pub in_order : t.nonce ≡ some (latest_nonce account)
    pub known : find_account v receiver w.users ≢ none

  check-eq-verdict :
      check_tree_invariants_for_update v t receiver w
      ≡ (ok (verdict t (find_account v receiver w.users) (find_account v t.sender w.users)), w)
  unfolding check_tree_invariants_for_update verdict
  check-eq-verdict = ground arith

  -- The check always returns, and never writes.
  pub check-total :
      (check_tree_invariants_for_update v t receiver w ≡ (ok true, w))
      ⊎ (check_tree_invariants_for_update v t receiver w ≡ (ok false, w))
  check-total =
      elim (Bool-cases
        (verdict t (find_account v receiver w.users) (find_account v t.sender w.users))) [
          | inl e ↦ inl (rw check-eq-verdict (rw e))
          | inr e ↦ inr (rw check-eq-verdict (rw e))
        ]

  accepts_verdict :
      Accepts → verdict t (find_account v receiver w.users) (find_account v t.sender w.users) ≡ true
  unfolding verdict
  accepts_verdict a = ground (
    arith,
    a.found,
    a.valid,
    (leb_ℤ_iff t.amount (latest_balance a.account)).1 a.covered,
    (nonce_equal_iff (latest_nonce a.account) t.nonce).1 a.in_order,
    (is_there_iff (find_account v receiver w.users)).1 a.known,
  )

  judge_accepts :
      (document : AccountDocument) (r : Result AccountsCollection)
      → find_account v t.sender w.users ≡ some document
      → accounts_collection document ≡ r
      → judge t (find_account v receiver w.users) r ≡ true
      → Accepts
  unfolding judge
  judge_accepts document (raised x) found valid h = cc
  judge_accepts document (ok account) found valid h =
      let money : Bool = leb_ℤ t.amount (latest_balance account) in
      let order : Bool = nonce_equal (latest_nonce account) t.nonce in
      let there : Bool = is_there (find_account v receiver w.users) in
      let (both, known) = (&&_iff (money && order) there).0 h in
      let (covered, in_order) = (&&_iff money order).0 both in
      record {
        document = document;
        account = account;
        found = found;
        valid = valid;
        covered = (leb_ℤ_iff t.amount (latest_balance account)).0 covered;
        in_order = (nonce_equal_iff (latest_nonce account) t.nonce).0 in_order;
        known = (is_there_iff (find_account v receiver w.users)).0 known;
      }

  verdict_accepts :
      (found : Option AccountDocument)
      → find_account v t.sender w.users ≡ found
      → verdict t (find_account v receiver w.users) found ≡ true
      → Accepts
  unfolding verdict
  verdict_accepts none e h = cc
  verdict_accepts (some document) e h =
      judge_accepts document (accounts_collection document) e refl h

  -- The check passes exactly for the transactions that `Accepts` describes.
  pub check-true_iff : (check_tree_invariants_for_update v t receiver w ≡ (ok true, w)) ↔ Accepts
  check-true_iff = (
    λ h. verdict_accepts (find_account v t.sender w.users) refl (cc (check-eq-verdict)),
    λ a. rw check-eq-verdict (rw (accepts_verdict a)),
  )

  -- A transfer that fails the check raises, and the database and the tree stay as they were.
  pub rejected_unchanged :
      (badge_id : String)
      → ¬ Accepts
      → make_rollup_transaction_between_existing_users v badge_id t receiver w
        ≡ (raised tree_invariants_failed, w)
  unfolding make_rollup_transaction_between_existing_users
  rejected_unchanged badge_id h = elim check-total [
    | inl e ↦ absurd (h (check-true_iff.0 e))
    | inr e ↦ rw e
  ]
