-- ===== src/Setup/Laws.antt =====
-- The blocks and the accounts after `on_start`.
use zkp_rollup.Base.{
  ℕ, ◌≡◌, refl, String, string_eq, beq_self, Bool, true, false, List, [], ◌∷◌, arith,
}
use zkp_rollup.Python.Result.{ok}
use zkp_rollup.Services.{Services, IsServices}
use zkp_rollup.State.{World}
use zkp_rollup.MerkleTree.Leaf.{FundedAccount}
use zkp_rollup.Block.Chain.{HasChain, IsLinked}
use zkp_rollup.Setup.{genesis_badge, on_start}

IsLinked-genesis :
    (id : String) (now : ℕ)
    → IsLinked (genesis_badge id now ∷ []) ((record { curr_badge_id = id }) ∷ [])
IsLinked-genesis id now = record {
  chain = (refl, refl, tt);
  pointer = record { curr_badge_id = id };
  tip = genesis_badge id now;
  pointed = refl;
  last = refl;
  tip_found = rw (beq_self id);
  tip_named = refl;
  tip_number = omega arith;
}

module _ (v : Services) (lawful : IsServices v) (w : World v) (id : String) (now : ℕ) where
  -- A start on empty collections that returns leaves a chain of one block, the genesis block, with or without
  -- start users.
  pub on_start-HasChain :
      (needed : Bool) (initial_state : List FundedAccount)
      → (on_start v needed initial_state id now w).0 ≡ ok tt
      → v.mongo.documents w.badges ≡ []
      → v.mongo.documents w.curr ≡ []
      → HasChain v (on_start v needed initial_state id now w).1
  unfolding on_start
  on_start-HasChain true [] returned no_badges no_curr = cc
  on_start-HasChain true (user ∷ users) returned no_badges no_curr =
      rw (lawful.mongo.documents-insert_one, lawful.mongo.documents-insert_one, no_badges, no_curr)
        (IsLinked-genesis id now)
  on_start-HasChain false initial_state returned no_badges no_curr =
      rw (lawful.mongo.documents-insert_one, lawful.mongo.documents-insert_one, no_badges, no_curr)
        (IsLinked-genesis id now)
