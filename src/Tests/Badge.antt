-- ===== src/Tests/Badge.antt =====
-- The script of a test badge at concrete inputs.
use zkp_rollup.Python.Bytes.{Bytes, to_bytes}
use zkp_rollup.MerkleTree.Leaf.{leaf_to_bytes}
use mathlib.Core.Option
use zkp_rollup.Base.{
  ℕ, zero, suc, ◌≡◌, ◌≢◌, refl, sym, some, String, Bool, true, false, List, [], ◌∷◌, All, length,
  get_elem?, arith,
}
use zkp_rollup.Base.Int.{ℤ, pos, ◌+ℤ◌, ◌-ℤ◌}
use zkp_rollup.Python.Result.{ok, raised, overflow_error}
use zkp_rollup.TestBadge.{
  AccountInformation, Book, apply_transaction, change_account, leaf_data_to_bytes, update_at,
  write_leaf,
}
use zkp_rollup.TestBadge.Script.{Badge, view_of, create_account_information}
use zkp_rollup.TestBadge.Main.{main, new_book}
use zkp_rollup.TestBadge.Run.{settled}
use zkp_rollup.TestBadge.Run.Step.{IsLeaf}
use zkp_rollup.TestBadge.Created.{IsDrawn, PublicApart, main-settled}
use zkp_rollup.Tests.Load.{
  bit_of, byte_of, bit_services, bit_signer, bit_services-IsServices, bit_signer-IsSigner,
}
use zkp_rollup.Tests.Ledger.{memory_services, alice, bob}

abbrev information : String → ℤ → AccountInformation
information public_key balance = record {
  private_key = "0x01";
  public_key = public_key;
  balance = balance;
  nonce = pos 0;
}

abbrev book : Book memory_services
book = record {
  account_information = information alice (pos 1000) ∷ information bob (pos 1000) ∷ [];
  tree = [];
}

overdrawn_raises : (apply_transaction memory_services (pos 1001) 0 1 book).0 ≡ raised overflow_error
unfolding apply_transaction change_account update_at write_leaf leaf_data_to_bytes leaf_to_bytes
    to_bytes ◌+ℤ◌ ◌-ℤ◌
overdrawn_raises = refl

abbrev drawn_keys : List Bytes
drawn_keys = (1 ∷ []) ∷ (0 ∷ []) ∷ []

abbrev sending_pairs : List (ℕ × ℕ)
sending_pairs = (0, 1) ∷ (1, 0) ∷ (0, 1) ∷ []

drawn_keys-IsDrawn : All (IsDrawn bit_signer) drawn_keys
drawn_keys-IsDrawn = (
  record { private_key = true; made = refl; is_bytes = (omega arith, tt) },
  (record { private_key = false; made = refl; is_bytes = (omega arith, tt) }, tt),
)

read : (d a : Bytes) (b x : Bool) → some d ≡ some a → bit_of d ≡ ok b → bit_of a ≡ ok x → x ≡ b
read d a b x found known h = cc

other_bytes : byte_of true ≢ byte_of false
other_bytes e = cc

drawn_keys-PublicApart : PublicApart bit_signer drawn_keys
drawn_keys-PublicApart zero zero a b x y fa fb hx hy ne = absurd (ne refl)
drawn_keys-PublicApart zero (suc zero) a b x y fa fb hx hy ne =
    rw (read (1 ∷ []) a true x fa refl hx, read (0 ∷ []) b false y fb refl hy) other_bytes
drawn_keys-PublicApart zero (suc (suc j)) a b x y fa fb hx hy ne = cc
drawn_keys-PublicApart (suc zero) zero a b x y fa fb hx hy ne =
    rw (read (0 ∷ []) a false x fa refl hx, read (1 ∷ []) b true y fb refl hy)
      (λ e. other_bytes (sym e))
drawn_keys-PublicApart (suc zero) (suc zero) a b x y fa fb hx hy ne = absurd (ne refl)
drawn_keys-PublicApart (suc zero) (suc (suc j)) a b x y fa fb hx hy ne = cc
drawn_keys-PublicApart (suc (suc i)) j a b x y fa fb hx hy ne = cc

main-settled_example :
    (accounts : List AccountInformation) × (badge : Badge) × (new : Book bit_services)
    × (create_account_information bit_services bit_signer drawn_keys ≡ ok accounts)
    × (length accounts ≡ length drawn_keys)
    × (main bit_services bit_signer drawn_keys sending_pairs (new_book bit_services bit_signer [])
        ≡ (ok badge, new))
    × ((k : ℕ)
        → get_elem? badge.leaf_data k
          ≡ Option.map (λ acc. view_of (settled sending_pairs k acc)) (get_elem? accounts k))
    × All (IsLeaf bit_services new.tree) new.account_information
    × (badge.new_merkle_root ≡ bit_services.smt.root_as_hex new.tree)
main-settled_example =
    main-settled bit_services bit_signer bit_services-IsServices bit_signer-IsSigner drawn_keys
      sending_pairs (new_book bit_services bit_signer []) drawn_keys-IsDrawn drawn_keys-PublicApart
      ((omega arith, omega arith), ((omega arith, omega arith), ((omega arith, omega arith), tt)))
      (omega arith)
