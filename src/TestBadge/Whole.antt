-- ===== src/TestBadge/Whole.antt =====
-- The whole script: the leaves at the start, and the badge at the end.
use zkp_rollup.Base.{
  ℕ, zero, suc, ◌≡◌, ◌≢◌, ◌∙◌, refl, ap, sym, List, [], ◌∷◌, some, length, All, get_elem?, arith,
}
use mathlib.Core.Option
use mathlib.Core.Option.{some-injective}
use zkp_rollup.Python.Result.{ok}
use zkp_rollup.Utils.{hex_to_bytes}
use zkp_rollup.Services.{Services, IsServices}
use zkp_rollup.Client.{Signer}
use zkp_rollup.TestBadge.{
  AccountInformation, Book, insert_accounts, initialize_merkle_tree, leaf_data_to_bytes,
}
use zkp_rollup.TestBadge.Tree.{get_elem?-some, Each, HasRoom, HasRoom-leaf}
use zkp_rollup.TestBadge.Proofs.{CanProve, get_merkle_proofs-ok}
use zkp_rollup.TestBadge.Script.{Badge, view_on_account_information}
use zkp_rollup.TestBadge.Main.{make_badge, new_book}
use zkp_rollup.TestBadge.Run.{
  settled, CanSign, InRange, IsSettled, IsReady, make_transactions-IsSettled,
}
use zkp_rollup.TestBadge.Run.Step.{KeysApart, IsLeaf, write-Written}

Each-cons :
    (P : AccountInformation → Type 0) (x : AccountInformation) (xs : List AccountInformation)
    → P x
    → Each P xs
    → Each P (x ∷ xs)
Each-cons P x xs own rest zero acc found =
    let same = some-injective x acc found in rw (sym same) own
Each-cons P x xs own rest (suc k) acc found = rest k acc found

module _ (v : Services) (lawful : IsServices v) where
  insert_accounts-leaves :
      (m : ℕ) (accs : List AccountInformation) (b : Book v)
      → KeysApart accs
      → Each (HasRoom m) accs
      → (tree : v.smt.SparseMerkleTree) × (insert_accounts v accs b
          ≡ (ok tt, record b { tree = tree }))
        × Each (IsLeaf v tree) accs
        × ((other : AccountInformation)
            → Each (λ a. hex_to_bytes other.public_key ≢ hex_to_bytes a.public_key) accs
            → IsLeaf v b.tree other
            → IsLeaf v tree other)
  unfolding insert_accounts leaf_data_to_bytes
  insert_accounts-leaves m [] b apart room = (b.tree, refl, λ k acc found. cc, λ other h l. l)
  insert_accounts-leaves m (acc ∷ accs) b apart room =
      let r = room 0 acc refl in
      let (leaf, encoded) = HasRoom-leaf m acc r in
      let next : Book v = record b { tree = v.smt.update r.key leaf b.tree } in
      let w = write-Written v lawful b acc r.key leaf r.hex encoded in
      let (tree, done, leaves, others) =
        insert_accounts-leaves m accs next
          (λ i j a c fa fc ne. apart (suc i) (suc j) a c fa fc (λ e. ne (omega (arith, e))))
          (λ k a found. room (suc k) a found) in
      (
        tree,
        rw r.hex (rw encoded done),
        Each-cons (IsLeaf v tree) acc accs
            (others acc
              (λ k a found. apart 0 (suc k) acc a refl found (λ e. absurd (omega (arith, e))))
              w.own)
            leaves,
        λ other h l.
            others other (λ k a found. h (suc k) a found) (w.others other (h 0 acc refl) l),
      )

  -- After the transactions, the proofs can be made.
  provable :
      (s : Signer v.crypto) (all pairs : List (ℕ × ℕ)) (b new : Book v)
      → InRange v s (length b.account_information) pairs
      → IsSettled v s all b new
      → Each (HasRoom 0) new.account_information
      → All (λ p. CanProve v.smt new.tree new.account_information p.0) pairs
  provable s all [] b new range ends room = tt
  provable s all ((i, j) ∷ pairs) b new ((hi, hj), range) ends room =
      let (acc, at_i) = get_elem?-some i b.account_information hi in
      let found : get_elem? new.account_information i ≡ some (settled all i acc) =
        ends i ∙ ap (Option.map (settled all i)) at_i in
      let r = room i (settled all i acc) found in
      (
        record { acc = settled all i acc; found = found; key = r.key; hex = r.hex },
        provable s all pairs b new range ends room,
      )

  -- The script on accounts with different keys, each of which can sign and has at least as many coins
  -- as there are transactions, and on pairs of indices of accounts: it returns; each account ends with
  -- what it had, less 1 for each time it pays, plus 1 for each time it is paid, and as many nonces
  -- more as it pays; and the badge holds these accounts and the root of a tree in which the leaf of
  -- each of them is its encoding.
  pub make_badge-IsSettled :
      (s : Signer v.crypto) (accounts : List AccountInformation) (pairs : List (ℕ × ℕ))
      → InRange v s (length accounts) pairs
      → KeysApart accounts
      → Each (HasRoom (length pairs)) accounts
      → Each (CanSign v s) accounts
      → (badge : Badge) × (new : Book v) × (make_badge v s pairs (new_book v s accounts)
          ≡ (ok badge, new))
        × IsSettled v s pairs (new_book v s accounts) new
        × Each (IsLeaf v new.tree) new.account_information
        × (badge.leaf_data ≡ view_on_account_information new.account_information)
        × (badge.new_merkle_root ≡ v.smt.root_as_hex new.tree)
  unfolding make_badge initialize_merkle_tree
  make_badge-IsSettled s accounts pairs range apart room sign =
      let start = new_book v s accounts in
      let (tree, inserted, leaves, _) =
        insert_accounts-leaves (length pairs) accounts start apart room in
      let planted : Book v = record start { tree = tree } in
      let ready : IsReady v s (length pairs) planted = record {
        apart = apart;
        room = room;
        sign = sign;
        leaves = leaves;
      } in
      let (ts, new, run, ends, done) =
        make_transactions-IsSettled v s lawful pairs planted range ready in
      let (proofs, proved) =
        get_merkle_proofs-ok v.smt new.tree new.account_information pairs
          (provable s pairs pairs planted new range ends done.room) in
      (
        record {
          old_merkle_root = v.smt.root_as_hex tree;
          leaf_data = view_on_account_information new.account_information;
          transactions = ts;
          new_merkle_root = v.smt.root_as_hex new.tree;
          badge_id = 1;
        },
        new,
        rw inserted (rw run (rw proved)),
        ends,
        done.leaves,
        refl,
        refl,
      )
