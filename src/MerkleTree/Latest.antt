-- ===== src/MerkleTree/Latest.antt =====
-- The latest values of an account are those of the entry that was pushed last.
use zkp_rollup.Base.{◌≡◌, refl, String, ◌∙◌, List, [], ◌∷◌, ◌++◌, Option, none, some, arith}
use zkp_rollup.Base.Int.{negsuc}
use zkp_rollup.Python.{get_item?}
use zkp_rollup.Python.Result.{ok}
use zkp_rollup.Types.{UpdateDocument, AccountDocument, AccountUpdates, AccountsCollection}
use zkp_rollup.State.Accounts.{push_update}
use zkp_rollup.MerkleTree.{
  checked_account, cons_update, account_update, account_updates_of, accounts_collection,
  latest_nonce, latest_balance,
}

abbrev last? {ℓ} : {A : Type ℓ} → List A → Option A
last? [] = none
last? (x ∷ []) = some x
last? (x ∷ y ∷ xs) = last? (y ∷ xs)

get_item?-last {ℓ} : {A : Type ℓ} (xs : List A) → get_item? xs (negsuc 0) ≡ last? xs
get_item?-last [] = refl
get_item?-last (x ∷ []) = ground arith
get_item?-last (x ∷ y ∷ xs) = ground (arith, get_item?-last (y ∷ xs))

last?-cons {ℓ} :
    {A : Type ℓ} (x : A) (xs : List A) {a : A} → last? xs ≡ some a → last? (x ∷ xs) ≡ some a
last?-cons x [] h = cc
last?-cons x (y ∷ xs) h = h

cons_update-some :
    (ids : Option (List String)) (d : UpdateDocument) (rest : Option (List AccountUpdates))
    (us : List AccountUpdates)
    → cons_update ids d rest ≡ some us
    → (texts : List String) × (tail : List AccountUpdates) × (rest ≡ some tail)
      × (us ≡ account_update texts d ∷ tail)
cons_update-some none d rest us h = cc
cons_update-some (some texts) d none us h = cc
cons_update-some (some texts) d (some tail) us h = (texts, tail, refl, cc)

-- Reading the entries keeps the values of the last one.
last-account_updates_of :
    (ds : List UpdateDocument) (d : UpdateDocument) (us : List AccountUpdates)
    → account_updates_of (ds ++ d ∷ []) ≡ some us
    → (texts : List String) × (last? us ≡ some (account_update texts d))
unfolding account_updates_of
last-account_updates_of [] d us h =
    let (texts, tail, empty, built) = cons_update-some _ d (some []) us h in (texts, cc)
last-account_updates_of (e ∷ ds) d us h =
    let (_, tail, read, built) = cons_update-some _ e (account_updates_of (ds ++ d ∷ [])) us h in
    let (texts, last) = last-account_updates_of ds d tail read in
    (texts, rw built (last?-cons _ tail last))

-- The values of an account with a last entry.
latest_of_last :
    (account : AccountsCollection) (u : AccountUpdates)
    → last? account.account_updates ≡ some u
    → (latest_nonce account ≡ u.nonce_after) × (latest_balance account ≡ u.balance_after)
unfolding latest_nonce latest_balance
latest_of_last account u h =
    let last = get_item?-last account.account_updates ∙ h in
    (rw (last, latest_nonce), rw (last, latest_balance))

of_checked :
    (document : AccountDocument) (updates : Option (List AccountUpdates))
    (account : AccountsCollection)
    → checked_account document updates ≡ ok account
    → updates ≡ some account.account_updates
of_checked document none account h = cc
of_checked document (some us) account h = ground arith

-- An account whose last entry is `d` has the nonce and the balance that `d` ends with.
pub latest_of_pushed :
    (document : AccountDocument) (d : UpdateDocument) (account : AccountsCollection)
    → accounts_collection (push_update d document) ≡ ok account
    → (latest_nonce account ≡ d.nonce_after) × (latest_balance account ≡ d.balance_after)
unfolding accounts_collection
latest_of_pushed document d account h =
    let read = of_checked (push_update d document) _ account h in
    let (texts, last) =
      last-account_updates_of document.account_updates d account.account_updates read in
    latest_of_last account (account_update texts d) last
