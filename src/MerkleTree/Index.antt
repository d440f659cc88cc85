-- ===== src/MerkleTree/Index.antt =====
-- The search of sequencer/src/MerkleTreeController.py for the entry of a badge among the
-- `account_updates`: `account_updates[acc].get(("badgeId") == badge_id)`. Its key is the value of
-- the comparison, a bool, so it is modelled over keys that are texts or bools.
use zkp_rollup.Base.{
  ℕ, suc, ◌≡◌, refl, String, Bool, true, false, ◌==◌, string_eq, List, [], ◌∷◌, Option, none, some,
  ap, if◌then◌else◌,
}
use zkp_rollup.Base.Int.{ℤ, pos}
use zkp_rollup.Types.{UpdateDocument}

pub data Key : Type 0 where
  text : String → Key
  flag : Bool → Key

pub data Value : Type 0 where
  number : ℤ → Value
  text : String → Value
  texts : List (Option String) → Value

-- The dict that the driver returns for an entry.
unfoldable pub items : UpdateDocument → List (Key × Value)
items d =
    (Key.text "balance_before", number d.balance_before)
    ∷ (Key.text "balance_after", number d.balance_after)
    ∷ (Key.text "nonce_before", number d.nonce_before)
    ∷ (Key.text "nonce_after", number d.nonce_after)
    ∷ (Key.text "transactions", texts d.transactions)
    ∷ (Key.text "badgeId", Value.text d.badge_id)
    ∷ []

unfoldable pub key_equal : Key → Key → Bool
key_equal (Key.text a) (Key.text b) = a == b
key_equal (Key.text a) (flag b) = false
key_equal (flag a) (Key.text b) = false
key_equal (flag true) (flag b) = b
key_equal (flag false) (flag true) = false
key_equal (flag false) (flag false) = true

-- `d.get(key)`
unfoldable pub get : Key → List (Key × Value) → Option Value
unfolding key_equal
get key [] = none
get key ((k, value) ∷ rest) = if key_equal key k then some value else get key rest

unfoldable pub truthy : Option Value → Bool
truthy none = false
truthy (some (number (pos n))) = elim n [ ℕ.zero ↦ false | suc m ↦ true ]
truthy (some (number other)) = true
truthy (some (Value.text s)) = if s == "" then false else true
truthy (some (texts [])) = false
truthy (some (texts (x ∷ xs))) = true

-- `account_updates[acc].get(("badgeId") == badge_id)`, as a test
unfoldable pub is_entry_of : String → UpdateDocument → Bool
unfolding items get truthy
is_entry_of badge_id d = truthy (get (flag ("badgeId" == badge_id)) (items d))

-- The loop over the indices from `acc` on, with the last hit so far.
unfoldable pub find_from : String → ℕ → Option ℕ → List UpdateDocument → Option ℕ
find_from badge_id acc update_index [] = update_index
find_from badge_id acc update_index (d ∷ ds) =
    find_from badge_id (suc acc) (if is_entry_of badge_id d then some acc else update_index) ds

unfoldable pub find_update_index : String → List UpdateDocument → Option ℕ
unfolding find_from is_entry_of
find_update_index badge_id account_updates = find_from badge_id 0 none account_updates

-- No field of a document has a bool for its name.
get-flag : (b : Bool) (d : UpdateDocument) → get (flag b) (items d) ≡ none
unfolding get items
get-flag true d = refl
get-flag false d = refl

is_entry_of-false : (badge_id : String) (d : UpdateDocument) → is_entry_of badge_id d ≡ false
unfolding is_entry_of
is_entry_of-false badge_id d = ap truthy (get-flag ("badgeId" == badge_id) d)

find_from-none :
    (badge_id : String) (acc : ℕ) (ds : List UpdateDocument) → find_from badge_id acc none ds ≡ none
unfolding find_from
find_from-none badge_id acc [] = refl
find_from-none badge_id acc (d ∷ ds) =
    rw (is_entry_of-false badge_id d) (find_from-none badge_id (suc acc) ds)

-- The search finds nothing, whatever the badge and the entries, also where the badge has an entry:
-- the code for an entry that was found never runs.
pub find_update_index-none :
    (badge_id : String) (account_updates : List UpdateDocument)
    → find_update_index badge_id account_updates ≡ none
unfolding find_update_index
find_update_index-none badge_id account_updates = find_from-none badge_id 0 account_updates
