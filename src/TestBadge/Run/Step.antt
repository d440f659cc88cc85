-- ===== src/TestBadge/Run/Step.antt =====
-- One transaction of the script, with the leaves it writes.
use native.Mathlib.Decide.{ℕ_discrete}
use zkp_rollup.Python.Exec.{◌>>◌}
use zkp_rollup.Base.{
  ℕ, suc, ◌<◌, ◌≡◌, ◌≢◌, ◌∙◌, refl, ap, sym, List, Option, none, some, length, get_elem?, arith,
}
use mathlib.Core.Option
use mathlib.Core.Option.{some-injective, none-ne-some}
use zkp_rollup.Base.Int.{pos}
use zkp_rollup.Python.Result.{ok}
use zkp_rollup.Python.Bytes.{Bytes}
use zkp_rollup.Utils.{hex_to_bytes}
use zkp_rollup.Services.{Services, IsServices}
use zkp_rollup.Services.Smt.{get-update_self, get-update_ne}
use zkp_rollup.MerkleTree.Leaf.{leaf_to_bytes}
use zkp_rollup.TestBadge.{
  AccountInformation, Book, debit, next_nonce, credit, leaf_data_to_bytes, change_account,
  write_leaf, apply_transaction,
}
use zkp_rollup.TestBadge.Tree.{
  Each, at, moved, HasRoom, HasRoom-leaf, moved-HasRoom, update_at-lookup, get_elem?-some,
}

-- The accounts at different indices have different keys.
abbrev pub KeysApart : List AccountInformation → Type 0
KeysApart accs =
    (i j : ℕ) (a b : AccountInformation)
    → get_elem? accs i ≡ some a
    → get_elem? accs j ≡ some b
    → i ≢ j
    → hex_to_bytes a.public_key ≢ hex_to_bytes b.public_key

pub moved-public_key :
    (i j k : ℕ) (acc : AccountInformation) → (moved i j k acc).public_key ≡ acc.public_key
moved-public_key i j k acc = ground arith

pub moved-private_key :
    (i j k : ℕ) (acc : AccountInformation) → (moved i j k acc).private_key ≡ acc.private_key
moved-private_key i j k acc = ground arith

moved_ne : (i j k : ℕ) (acc : AccountInformation) → k ≢ i → k ≢ j → moved i j k acc ≡ acc
moved_ne i j k acc hi hj = ground arith

-- Where an account after the transaction comes from.
pub map-some :
    (g : AccountInformation → AccountInformation) (o : Option AccountInformation)
    (new : AccountInformation)
    → Option.map g o ≡ some new
    → (old : AccountInformation) × (o ≡ some old) × (g old ≡ new)
map-some g none new h = absurd (none-ne-some new h)
map-some g (some old) new h = (old, refl, some-injective (g old) new h)

map_thrice :
    (f g h : AccountInformation → AccountInformation) (o : Option AccountInformation)
    → Option.map f (Option.map g (Option.map h o)) ≡ Option.map (λ a. f (g (h a))) o
map_thrice f g h none = refl
map_thrice f g h (some a) = refl

-- Accounts that a transaction made from others.
module _ (i j : ℕ) (old new : List AccountInformation)
    (lookup : (k : ℕ) → get_elem? new k ≡ Option.map (moved i j k) (get_elem? old k)) where
  pub origin :
      (k : ℕ) (acc : AccountInformation)
      → get_elem? new k ≡ some acc
      → (before : AccountInformation) × (get_elem? old k ≡ some before) × (moved i j k before ≡ acc)
  origin k acc found = map-some (moved i j k) (get_elem? old k) acc (sym (lookup k) ∙ found)

  pub Each-HasRoom : (m : ℕ) → Each (HasRoom (suc m)) old → Each (HasRoom m) new
  Each-HasRoom m room k acc found =
      let (before, was, same) = origin k acc found in
      rw (sym same) (moved-HasRoom m i j k before (room k before was))

  pub moved-KeysApart : KeysApart old → KeysApart new
  moved-KeysApart apart k l a b fa fb ne =
      let (a0, wa, sa) = origin k a fa in
      let (b0, wb, sb) = origin l b fb in
      let ka = ap hex_to_bytes (sym (moved-public_key i j k a0) ∙ ap (λ c. c.public_key) sa) in
      let kb = ap hex_to_bytes (sym (moved-public_key i j l b0) ∙ ap (λ c. c.public_key) sb) in
      λ e. apart k l a0 b0 wa wb ne (ka ∙ e ∙ sym kb)

module _ (v : Services) where
  -- The leaf of an account holds its balance, its nonce and its key.
  pub record IsLeaf (tree : v.smt.SparseMerkleTree) (acc : AccountInformation) : Type 0 where
    pub key : Bytes
    pub hex : hex_to_bytes acc.public_key ≡ ok key
    pub encoded : leaf_to_bytes acc.balance acc.nonce acc.public_key ≡ ok (v.smt.get tree key)

  module _ (lawful : IsServices v) where
    ok_inj : {a b : Bytes} → ok a ≡ ok b → a ≡ b
    ok_inj h = cc

    -- A leaf that is written is the account's; the leaf of an account with another key stays.
    pub record Written (b : Book v) (acc : AccountInformation) (tree : v.smt.SparseMerkleTree)
        : Type 0 where
      pub own : IsLeaf tree acc
      pub others :
          (other : AccountInformation)
          → hex_to_bytes other.public_key ≢ hex_to_bytes acc.public_key
          → IsLeaf b.tree other
          → IsLeaf tree other

    pub write-Written :
        (b : Book v) (acc : AccountInformation) (key leaf : Bytes)
        → hex_to_bytes acc.public_key ≡ ok key
        → leaf_to_bytes acc.balance acc.nonce acc.public_key ≡ ok leaf
        → Written b acc (v.smt.update key leaf b.tree)
    write-Written b acc key leaf hex encoded = record {
      own = record {
        key = key;
        hex = hex;
        encoded = encoded ∙ ap ok (sym (get-update_self v.smt lawful.smt b.tree key leaf));
      };
      others = λ other apart l. record {
        key = l.key;
        hex = l.hex;
        encoded =
            l.encoded
            ∙ ap ok (
                sym (
                  get-update_ne v.smt lawful.smt b.tree key leaf l.key
                    (λ e. apart (l.hex ∙ ap ok e ∙ sym hex))));
      };
    }

    pub write_leaf-Written :
        (m i : ℕ) (b : Book v) (acc : AccountInformation)
        → get_elem? b.account_information i ≡ some acc
        → HasRoom m acc
        → (tree : v.smt.SparseMerkleTree) × (write_leaf v i b ≡ (ok tt, record b { tree = tree }))
          × Written b acc tree
    unfolding write_leaf leaf_data_to_bytes
    write_leaf-Written m i b acc found r =
        let (leaf, encoded) = HasRoom-leaf m acc r in
        (
          v.smt.update r.key leaf b.tree,
          rw found (rw (encoded, r.hex)),
          write-Written b acc r.key leaf r.hex encoded,
        )

    -- What a transaction leaves.
    pub record Applied (i j : ℕ) (b new : Book v) : Type 0 where
      pub size : length new.account_information ≡ length b.account_information
      pub lookup :
          (k : ℕ)
          → get_elem? new.account_information k
            ≡ Option.map (moved i j k) (get_elem? b.account_information k)
      pub leaves : Each (IsLeaf new.tree) new.account_information

    pub change_accounts :
        (i j : ℕ) (b : Book v)
        → i < length b.account_information
        → j < length b.account_information
        → (third : List AccountInformation) × (apply_transaction v (pos 1) i j b
            ≡ (write_leaf v i >> write_leaf v j) (record b { account_information = third }))
          × (length third ≡ length b.account_information)
          × ((k : ℕ)
              → get_elem? third k ≡ Option.map (moved i j k) (get_elem? b.account_information k))
    unfolding apply_transaction change_account
    change_accounts i j b hi hj =
        let accs = b.account_information in
        let (first, e1, n1, l1) = update_at-lookup i (debit (pos 1)) accs hi in
        let (second, e2, n2, l2) = update_at-lookup i next_nonce first (omega (arith, n1)) in
        let (third, e3, n3, l3) =
          update_at-lookup j (credit (pos 1)) second (omega (arith, n1, n2)) in
        (
          third,
          rw e1 (rw e2 (rw e3)),
          n3 ∙ n2 ∙ n1,
          λ k.
              l3 k
              ∙ ap (Option.map (at j (credit (pos 1)) k))
                  (l2 k ∙ ap (Option.map (at i next_nonce k)) (l1 k))
              ∙ map_thrice (at j (credit (pos 1)) k) (at i next_nonce k) (at i (debit (pos 1)) k)
                  (get_elem? accs k),
        )

    pub apply_transaction-Applied :
        (m i j : ℕ) (b : Book v)
        → i < length b.account_information
        → j < length b.account_information
        → KeysApart b.account_information
        → Each (HasRoom (suc m)) b.account_information
        → Each (IsLeaf b.tree) b.account_information
        → (new : Book v) × (apply_transaction v (pos 1) i j b ≡ (ok tt, new)) × Applied i j b new
    apply_transaction-Applied m i j b hi hj apart room leaves =
        let old = b.account_information in
        let (third, applied, size, lookup) = change_accounts i j b hi hj in
        let changed : Book v = record b { account_information = third } in
        let room3 = Each-HasRoom i j old third lookup m room in
        let apart3 = moved-KeysApart i j old third lookup apart in
        let (payer, at_i) = get_elem?-some i third (omega (arith, size)) in
        let (payee, at_j) = get_elem?-some j third (omega (arith, size)) in
        let (tree1, e1, w1) = write_leaf-Written m i changed payer at_i (room3 i payer at_i) in
        let once : Book v = record changed { tree = tree1 } in
        let (tree2, e2, w2) = write_leaf-Written m j once payee at_j (room3 j payee at_j) in
        (
          record once { tree = tree2 },
          applied ∙ rw e1 e2,
          record {
            size = size;
            lookup = lookup;
            leaves = λ k acc found. elim (ℕ_discrete k j) [
              | yes last ↦
                  let same : payee ≡ acc =
                    some-injective payee acc (sym at_j ∙ ap (get_elem? third) (sym last) ∙ found) in
                  rw (sym same) w2.own
              | no other ↦
                  w2.others acc (apart3 k j acc payee found at_j other) (elim (ℕ_discrete k i) [
                    | yes first ↦
                        let same : payer ≡ acc =
                          some-injective payer acc
                            (sym at_i ∙ ap (get_elem? third) (sym first) ∙ found) in
                        rw (sym same) w1.own
                    | no neither ↦
                        let (before, was, same) = origin i j old third lookup k acc found in
                        let kept : before ≡ acc =
                          sym (moved_ne i j k before neither other) ∙ same in
                        w1.others acc (apart3 k i acc payer found at_i neither)
                          (rw (sym kept) (leaves k before was))
                  ])
            ];
          },
        )
