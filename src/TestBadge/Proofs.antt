-- ===== src/TestBadge/Proofs.antt =====
-- scripts/create_test_badge.py: the inclusion proofs that `main` makes, of the accounts that pay.
use zkp_rollup.Base.{
  ℕ, ◌≡◌, refl, String, Bool, false, eqb, List, [], ◌∷◌, Option, none, some, map, get_elem?, All,
  Bool-cases, inl, inr, ◌||◌, if◌then◌else◌,
}
use zkp_rollup.Python.Result.{Result, ok, index_error, require, ◌>>=◌}
use zkp_rollup.Python.Bytes.{Bytes, hex}
use zkp_rollup.Utils.{hex_to_bytes, bytes_to_hex}
use zkp_rollup.Services.Smt.{Smt, SparseMerkleProof}
use zkp_rollup.TestBadge.{AccountInformation}

-- A proof as the script writes it.
pub record ProofView : Type 0 where
  pub sidenodes : List String
  pub non_membership_leafdata : Option String
  pub sibling_data : Option String

-- `data.hex() if data else None`: no bytes are as good as None.
unfoldable pub hex_or_none : Option Bytes → Option String
hex_or_none none = none
hex_or_none (some []) = none
hex_or_none (some (b ∷ bs)) = some (hex (b ∷ bs))

unfoldable pub proof_to_json : SparseMerkleProof → ProofView
proof_to_json proof = record {
  sidenodes = map bytes_to_hex proof.sidenodes;
  non_membership_leafdata = hex_or_none proof.non_membership_leafdata;
  sibling_data = hex_or_none proof.sibling_data;
}

abbrev pub among : ℕ → List ℕ → Bool
among i [] = false
among i (j ∷ js) = eqb i j || among i js

-- `{pair[0] for pair in sending_pairs}`, each sender once; the order of a set is not used.
unfoldable pub unique_sender : List (ℕ × ℕ) → List ℕ
unique_sender [] = []
unique_sender ((from_index, to_index) ∷ pairs) =
    let senders = unique_sender pairs in
    if among from_index senders then senders else from_index ∷ senders

module _ (m : Smt) (tree : m.SparseMerkleTree) (account_information : List AccountInformation) where
  unfoldable pub prove_senders : List ℕ → Result (List ProofView)
  prove_senders [] = ok []
  prove_senders (sender ∷ senders) = do
    acc ← require index_error (get_elem? account_information sender)
    key ← hex_to_bytes acc.public_key
    inclusion_proofs ← prove_senders senders
    ok (proof_to_json (m.prove tree key) ∷ inclusion_proofs)

  unfoldable pub get_merkle_proofs : List (ℕ × ℕ) → Result (List ProofView)
  get_merkle_proofs sending_pairs = prove_senders (unique_sender sending_pairs)

  -- A sender whose key can be read.
  pub record CanProve (sender : ℕ) : Type 0 where
    pub acc : AccountInformation
    pub found : get_elem? account_information sender ≡ some acc
    pub key : Bytes
    pub hex : hex_to_bytes acc.public_key ≡ ok key

  prove_senders-ok :
      (senders : List ℕ)
      → All CanProve senders
      → (proofs : List ProofView) × (prove_senders senders ≡ ok proofs)
  unfolding prove_senders
  prove_senders-ok [] h = ([], refl)
  prove_senders-ok (sender ∷ senders) (c, cs) =
      let (proofs, done) = prove_senders-ok senders cs in
      (proof_to_json (m.prove tree c.key) ∷ proofs, rw c.found (rw c.hex (rw done)))

  unique_sender-All :
      (P : ℕ → Type 0) (pairs : List (ℕ × ℕ)) → All (λ p. P p.0) pairs → All P (unique_sender pairs)
  unfolding unique_sender
  unique_sender-All P [] h = tt
  unique_sender-All P ((from_index, to_index) ∷ pairs) (h, hs) =
      elim (Bool-cases (among from_index (unique_sender pairs))) [
        | inl e ↦ rw e (unique_sender-All P pairs hs)
        | inr e ↦ rw e (h, unique_sender-All P pairs hs)
      ]

  pub get_merkle_proofs-ok :
      (pairs : List (ℕ × ℕ))
      → All (λ p. CanProve p.0) pairs
      → (proofs : List ProofView) × (get_merkle_proofs pairs ≡ ok proofs)
  unfolding get_merkle_proofs
  get_merkle_proofs-ok pairs h =
      prove_senders-ok (unique_sender pairs) (unique_sender-All CanProve pairs h)
