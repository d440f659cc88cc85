-- ===== src/TestBadge/Funds.antt =====
-- The balances of the script's accounts under `apply_transaction`.
use zkp_rollup.Base.{ℕ, zero, suc, ◌<◌, ◌≡◌, ◌∙◌, refl, ap, List, [], ◌∷◌, length, some, arith}
use zkp_rollup.Base.Int.{ℤ, pos, ◌+ℤ◌, ◌-ℤ◌, int_laws}
use zkp_rollup.Python.Exec.{◌>>◌}
use zkp_rollup.Services.{Services}
use zkp_rollup.TestBadge.{
  AccountInformation, Book, update_at, debit, next_nonce, credit, change_account, write_leaf,
  apply_transaction,
}

-- The balances of all accounts together.
unfoldable pub total : List AccountInformation → ℤ
total [] = pos 0
total (acc ∷ accs) = acc.balance +ℤ total accs

-- A change of one account, by an amount that may be negative.
total-update_at :
    (d : ℤ) (f : AccountInformation → AccountInformation)
    → ((acc : AccountInformation) → (f acc).balance ≡ acc.balance +ℤ d)
    → (i : ℕ) (accs : List AccountInformation) → i < length accs
    → (changed : List AccountInformation) × (update_at i f accs ≡ some changed)
      × (total changed ≡ total accs +ℤ d)
      × (length changed ≡ length accs)
unfolding update_at total
total-update_at d f by i [] h = absurd (omega arith)
total-update_at d f by zero (acc ∷ accs) h =
    (f acc ∷ accs, refl, rw (by acc) (omega int_laws), refl)
total-update_at d f by (suc i) (acc ∷ accs) h =
    let (changed, done, sum, size) = total-update_at d f by i accs (omega arith) in
    (acc ∷ changed, rw done, rw sum (omega int_laws), ap suc size)

module _ (v : Services) where
  writes-accounts :
      (i j : ℕ) (b : Book v)
      → ((write_leaf v i >> write_leaf v j) b).1.account_information ≡ b.account_information
  unfolding write_leaf
  writes-accounts i j b = ground arith

  -- A transaction between two accounts of the script, or from one to itself, conserves the sum of all
  -- balances, also where a new leaf cannot be written and the script ends with an exception.
  pub apply_transaction-total :
      (amount : ℤ) (i j : ℕ) (b : Book v)
      → i < length b.account_information
      → j < length b.account_information
      → total (apply_transaction v amount i j b).1.account_information ≡ total b.account_information
  unfolding apply_transaction change_account
  apply_transaction-total amount i j b hi hj =
      let (first, e1, s1, n1) =
        total-update_at (pos 0 -ℤ amount) (debit amount) (λ acc. omega int_laws) i
          b.account_information hi in
      let (second, e2, s2, n2) =
        total-update_at (pos 0) next_nonce (λ acc. omega int_laws) i first (omega (arith, n1)) in
      let (third, e3, s3, n3) =
        total-update_at amount (credit amount) (λ acc. omega int_laws) j second
          (omega (arith, n1, n2)) in
      let sum : total third ≡ total b.account_information = rw (s3, s2, s1) (omega int_laws) in
      rw e1 (rw e2 (rw e3 (ap total (writes-accounts i j _) ∙ sum)))
