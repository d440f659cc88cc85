-- ===== src/Server/Interleaved/Held.antt =====
-- Where an identifier of a transaction is while the tasks interleave: in a block, among the pending
-- transactions, or in the batch that is being applied.
use zkp_rollup.Base.{ℕ, ◌+◌, ◌≤◌, ◌≡◌, ap, String, arith}
use zkp_rollup.Base.Count.{count}
use zkp_rollup.Services.{Services, IsServices}
use zkp_rollup.State.{World}
use zkp_rollup.Block.Once.{has_id, recorded}
use zkp_rollup.Block.Once.Round.{waiting, uses}
use zkp_rollup.Block.Steps.{Position, idle, selected, applying}
use zkp_rollup.Server.Interleaved.{System, TaskStep, stores, Interleaving, nothing_yet, and_then}

-- How often the batch that is being applied holds an identifier: its transactions wait no more, and
-- stand in no block yet.
abbrev pub held : String → Position → ℕ
held id idle = 0
held id (selected d batch) = 0
held id (applying d batch marks ts) = count (has_id id) batch

module _ (v : Services) (whole_ether : ℕ → ℕ) where
  -- The transactions of a batch that was found and not yet marked still wait.
  abbrev pub StillWaits : String → Position → World v → Type 0
  StillWaits id idle w = Unit
  StillWaits id (selected d batch) w = count (has_id id) batch ≤ waiting v id w
  StillWaits id (applying d batch marks ts) w = Unit

  pub record IsOnce (id : String) (p : Position) (w : World v) : Type 0 where
    pub once : uses v id w + held id p ≤ 1
    pub still : StillWaits id p w

  -- The identifier that a submission draws is used by no block, no pending transaction, and no batch
  -- that is being applied.
  abbrev pub IsUnused : {s new : System v whole_ether} → TaskStep v whole_ether s new → Type 0
  IsUnused {s} (stores request submission_id transaction_id now) =
      uses v transaction_id s.world + held transaction_id s.consumer ≡ 0
  IsUnused other = Unit

  abbrev pub AllUnused :
      {start new : System v whole_ether} → Interleaving v whole_ether start new → Type 0
  AllUnused nothing_yet = Unit
  AllUnused (and_then run step) = AllUnused run × IsUnused step

  module _ (lawful : IsServices v) (id : String) where
    pub StillWaits-grows :
        (p : Position) (w new : World v)
        → waiting v id w ≤ waiting v id new
        → StillWaits id p w
        → StillWaits id p new
    StillWaits-grows idle w new h s = tt
    StillWaits-grows (selected d batch) w new h s = omega (arith, h, s)
    StillWaits-grows (applying d batch marks ts) w new h s = tt

    pub same-IsOnce :
        (p : Position) (w new : World v)
        → new.badges ≡ w.badges
        → waiting v id new ≡ waiting v id w
        → IsOnce id p w
        → IsOnce id p new
    same-IsOnce p w new badges same o =
        let blocks = ap (λ c. recorded id (v.mongo.documents c)) badges in
        record {
          once = omega (arith, blocks, same, o.once);
          still = StillWaits-grows p w new (omega (arith, same)) o.still;
        }
