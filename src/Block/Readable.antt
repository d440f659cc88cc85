-- ===== src/Block/Readable.antt =====
-- The hash of every block can be read back, so that the next block can be hashed.
use zkp_rollup.Base.{
  ℕ, ◌+◌, ◌≡◌, ◌∙◌, ap, sym, String, Bool, List, [], ◌∷◌, ◌++◌, Option, none, some, first, All,
  Option-cases, Bool-cases, inl, inr, arith,
}
use zkp_rollup.Python.Result.{Result-cases, ok}
use mathlib.Core.Option.{some-injective}
use zkp_rollup.Base.Int.{pos}
use zkp_rollup.Python.Bytes.{Bytes, hex, to_bytes}
use zkp_rollup.Utils.{hex_to_bytes, add_0x_prefix}
use zkp_rollup.Utils.Laws.{hex_to_bytes-add_0x_prefix}
use zkp_rollup.Types.{Transaction, TransactionBadge, BadgeExecutionCause}
use zkp_rollup.Services.{Services, IsServices}
use zkp_rollup.State.{World}
use zkp_rollup.MemPool.{ids_of}
use zkp_rollup.MerkleTree.{checked_texts}
use zkp_rollup.Block.{finish_block, get_previous_block_information}
use zkp_rollup.Block.Hash.{create_block_hash, create_rolling_transaction_hash, previous_hash_bytes}
use zkp_rollup.Block.Form.{finish_block-ok, new_badge}

-- A block whose hash can be read.
abbrev pub IsReadable : TransactionBadge → Type 0
IsReadable badge = (key : Bytes) × (hex_to_bytes badge.blockhash ≡ ok key)

All-append :
    (bs : List TransactionBadge) (b : TransactionBadge)
    → All IsReadable bs
    → IsReadable b
    → All IsReadable (bs ++ b ∷ [])
All-append [] b h own = (own, tt)
All-append (c ∷ bs) b (h, hs) own = (h, All-append bs b hs own)

pub first-IsReadable :
    (p : TransactionBadge → Bool) (bs : List TransactionBadge) (b : TransactionBadge)
    → All IsReadable bs
    → first p bs ≡ some b
    → IsReadable b
first-IsReadable p [] b h found = cc
first-IsReadable p (c ∷ bs) b (h, hs) found = elim (Bool-cases (p c)) [
  | inl e ↦ let same : c ≡ b = cc in rw (sym same) h
  | inr e ↦ first-IsReadable p bs b hs (rw e at found)
]

module _ (v : Services) where
  create_block_hash-hex :
      (n timestamp : ℕ) (batch : List Transaction) (previous : Option String) (h : String)
      → create_block_hash v n timestamp batch previous ≡ some h
      → (msg : Bytes) × (hex (v.crypto.sha256 msg) ≡ h)
  unfolding create_block_hash
  create_block_hash-hex n timestamp batch previous h e =
      elim (Result-cases (create_rolling_transaction_hash v batch)) [
        | inr (x, e1) ↦ let bad : none ≡ some h = rw e1 at e in cc
        | inl (a, e1) ↦ elim (Result-cases (to_bytes 8 (pos n))) [
          | inr (x, e2) ↦ let bad : none ≡ some h = rw (e1, e2) at e in cc
          | inl (b, e2) ↦ elim (Result-cases (to_bytes 8 (pos timestamp))) [
            | inr (x, e3) ↦ let bad : none ≡ some h = rw (e1, e2, e3) at e in cc
            | inl (c, e3) ↦ elim (Result-cases (previous_hash_bytes v previous)) [
              | inr (x, e4) ↦ let bad : none ≡ some h = rw (e1, e2, e3, e4) at e in cc
              | inl (d, e4) ↦
                  let written : some (hex (v.crypto.sha256 (b ++ c ++ d ++ a))) ≡ some h =
                    rw (e1, e2, e3, e4) at e in
                  (b ++ c ++ d ++ a, some-injective _ h written)
            ]
          ]
        ]
      ]

  abbrev pub AllReadable : World v → Type 0
  AllReadable w = All IsReadable (v.mongo.documents w.badges)

  module _ (lawful : IsServices v) where
    pub finish_block-IsReadable :
        (cause : BadgeExecutionCause) (badge_id : String) (timestamp : ℕ)
        (batch delta : List Transaction) (s : World v)
        → AllReadable s
        → AllReadable (finish_block v cause badge_id timestamp batch delta s).1
    unfolding finish_block
    finish_block-IsReadable cause badge_id timestamp batch delta s all =
        elim (Option-cases (get_previous_block_information v s)) [
          | inl e ↦ ground (arith, e, all)
          | inr (previous, e) ↦
              elim (Option-cases
                (create_block_hash v (previous.1 + 1) timestamp batch (some previous.0))) [
                  | inl e2 ↦ ground (arith, e, e2, all)
                  | inr (h, e2) ↦ elim (Option-cases (checked_texts (ids_of delta))) [
                    | inl e3 ↦ ground (arith, e, e2, e3, all)
                    | inr (ids, e3) ↦
                        let (msg, same) =
                          create_block_hash-hex (previous.1 + 1) timestamp batch (some previous.0) h
                            e2 in
                        let digest = v.crypto.sha256 msg in
                        let own : hex_to_bytes (add_0x_prefix h) ≡ ok digest =
                          ap (λ x. hex_to_bytes (add_0x_prefix x)) (sym same)
                          ∙ hex_to_bytes-add_0x_prefix digest (lawful.crypto.digest_bytes msg) in
                        rw
                          (finish_block-ok v cause badge_id timestamp batch delta s previous h ids e
                            e2 e3)
                          (rw lawful.mongo.documents-insert_one (
                            All-append (v.mongo.documents s.badges)
                              (new_badge v cause badge_id timestamp s previous h ids) all
                              (digest, own)))
                  ]
                ]
        ]
