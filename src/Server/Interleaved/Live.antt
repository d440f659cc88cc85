-- ===== src/Server/Interleaved/Live.antt =====
-- The next block, in the states that the interleaved tasks lead to.
use zkp_rollup.Base.{
  ℕ, ◌+◌, ◌<◌, ◌^◌, ◌≡◌, refl, String, Bool, true, false, List, [], ◌∷◌, length, All, eqb, some,
  Bool-cases, inl, inr, arith,
}
use zkp_rollup.Python.Result.{ok}
use zkp_rollup.Python.Bytes.{Bytes, le_bytes, from_hex}
use zkp_rollup.Utils.{hex_to_bytes}
use zkp_rollup.Types.{TransactionBadge, BadgeExecutionCause}
use zkp_rollup.Services.{Services, IsServices}
use zkp_rollup.State.{World}
use zkp_rollup.MemPool.{insert_into_queue}
use zkp_rollup.MerkleTree.Leaf.{FundedAccount}
use zkp_rollup.Block.{
  batch_size, any_document, point_to, survivors, update_from, batch_queue_producer,
  form_new_L2_block,
}
use zkp_rollup.Block.Chain.{previous_is_tip}
use zkp_rollup.Block.Form.{batch_of}
use zkp_rollup.Block.{get_previous_block_information}
use zkp_rollup.Block.Formed.{IsHashed, block_is_written}
use zkp_rollup.Block.Frame.{update_from-SameBlocks}
use zkp_rollup.Block.Readable.{AllReadable, first-IsReadable, finish_block-IsReadable}
use zkp_rollup.Block.Steps.{Position, idle, selected, applying, begin, proceed}
use zkp_rollup.ChainListener.Laws.{handle_deposit_entries-SameService}
use zkp_rollup.Setup.{zero_hash, on_start}
use zkp_rollup.Server.Interleaved.{
  System, count_submission, at_rest, TaskStep, stores, counts, deposits, produces, takes, resumes,
  Interleaving, nothing_yet, and_then,
}
use zkp_rollup.Server.Interleaved.Consistent.{Interleaving-IsConsistent}

zero_hash-IsReadable : hex_to_bytes zero_hash ≡ ok (le_bytes 32 0)
unfolding hex_to_bytes from_hex le_bytes
zero_hash-IsReadable = refl

module _ (v : Services) (whole_ether : ℕ → ℕ) (lawful : IsServices v) where
  same-AllReadable : (w new : World v) → new.badges ≡ w.badges → AllReadable v w → AllReadable v new
  same-AllReadable w new e h = rw e h

  proceeded-AllReadable :
      (p : Position) (w : World v) → AllReadable v w → AllReadable v (proceed v p w).1
  unfolding proceed update_from
  proceeded-AllReadable idle w h = h
  proceeded-AllReadable (selected d batch) w h = h
  proceeded-AllReadable (applying d batch marks []) w h =
      finish_block-IsReadable v lawful d.cause d.badge_id d.timestamp batch (survivors marks batch)
        w h
  proceeded-AllReadable (applying d batch marks (t ∷ ts)) w h =
      same-AllReadable w (update_from v d.badge_id marks (t ∷ []) w).1
        (update_from-SameBlocks v d.badge_id marks (t ∷ []) w).badges h

  counted-badges : (w : World v) → (count_submission v whole_ether w).badges ≡ w.badges
  counted-badges w = elim (Bool-cases (eqb (w.transaction_counter + 1) batch_size)) [
    | inl e ↦ rw e
    | inr e ↦ rw e
  ]

  TaskStep-AllReadable :
      {s new : System v whole_ether}
      → TaskStep v whole_ether s new
      → AllReadable v s.world
      → AllReadable v new.world
  unfolding insert_into_queue batch_queue_producer begin
  TaskStep-AllReadable (stores request submission_id transaction_id now) h = h
  TaskStep-AllReadable {s} (counts rest e) h =
      same-AllReadable s.world (count_submission v whole_ether s.world) (counted-badges s.world) h
  TaskStep-AllReadable {s} {new} (deposits entry) h =
      same-AllReadable s.world new.world
        (handle_deposit_entries-SameService v whole_ether (entry ∷ []) s.world).badges h
  TaskStep-AllReadable produces h = h
  TaskStep-AllReadable (takes cause rest badge_id now timestamp e e2 fresh) h = h
  TaskStep-AllReadable {s} resumes h = proceeded-AllReadable s.consumer s.world h

  Interleaving-AllReadable :
      {s new : System v whole_ether}
      → Interleaving v whole_ether s new
      → AllReadable v s.world
      → AllReadable v new.world
  Interleaving-AllReadable nothing_yet h = h
  Interleaving-AllReadable (and_then run step) h =
      TaskStep-AllReadable step (Interleaving-AllReadable run h)

  on_start-AllReadable :
      (needed : Bool) (initial_state : List FundedAccount) (genesis_badge_id : String) (now : ℕ)
      (w : World v)
      → v.mongo.documents w.badges ≡ []
      → AllReadable v (on_start v needed initial_state genesis_badge_id now w).1
  unfolding on_start
  on_start-AllReadable true [] genesis_badge_id now w none_yet = rw none_yet tt
  on_start-AllReadable true (user ∷ users) genesis_badge_id now w none_yet =
      rw (lawful.mongo.documents-insert_one, none_yet) ((le_bytes 32 0, zero_hash-IsReadable), tt)
  on_start-AllReadable false initial_state genesis_badge_id now w none_yet =
      rw (lawful.mongo.documents-insert_one, none_yet) ((le_bytes 32 0, zero_hash-IsReadable), tt)

  -- What the next block follows: a block that is found, whose hash can be read, with the last number.
  pub record HasPrevious (w : World v) : Type 0 where
    pub blockhash : String
    pub prev_id : String
    pub blocknumber : ℕ
    pub key : Bytes
    pub previous : get_previous_block_information v w ≡ some (blockhash, blocknumber, prev_id)
    pub read : hex_to_bytes blockhash ≡ ok key
    pub number : blocknumber + 1 ≡ length (v.mongo.documents w.badges)

  pub Interleaving-HasPrevious :
      (w : World v) (needed : Bool) (initial_state : List FundedAccount) (genesis_badge_id : String)
      (started : ℕ) {new : System v whole_ether}
      → (on_start v needed initial_state genesis_badge_id started w).0 ≡ ok tt
      → v.mongo.documents w.badges ≡ []
      → v.mongo.documents w.curr ≡ []
      → w.transaction_counter < batch_size
      → Interleaving v whole_ether
          (at_rest v whole_ether (on_start v needed initial_state genesis_badge_id started w).1)
          new
      → HasPrevious new.world
  Interleaving-HasPrevious w needed initial_state genesis_badge_id started {new} returned no_badges
        no_curr small run =
      let c =
        Interleaving-IsConsistent v whole_ether lawful w needed initial_state genesis_badge_id
          started returned no_badges no_curr small run in
      let readable =
        Interleaving-AllReadable run
          (on_start-AllReadable needed initial_state genesis_badge_id started w no_badges) in
      let tip = c.chain.tip in
      let (key, read) =
        first-IsReadable _ (v.mongo.documents new.world.badges) tip readable c.chain.tip_found in
      record {
        blockhash = tip.blockhash;
        prev_id = tip.badge_id;
        blocknumber = tip.blocknumber;
        key = key;
        previous = previous_is_tip v lawful new.world c.chain;
        read = read;
        number = c.chain.tip_number;
      }

  -- From a start on empty collections that returned, in every state that the interleaved tasks lead to: a round whose
  -- batch can be hashed and has identifiers, while the number of blocks and the time fit in eight bytes,
  -- returns, writes one block with the next number, and moves the pointer to it.
  pub next_block_is_written :
      (w : World v) (needed : Bool) (initial_state : List FundedAccount) (genesis_badge_id : String)
      (started : ℕ) {new : System v whole_ether}
      → (on_start v needed initial_state genesis_badge_id started w).0 ≡ ok tt
      → v.mongo.documents w.badges ≡ []
      → v.mongo.documents w.curr ≡ []
      → w.transaction_counter < batch_size
      → Interleaving v whole_ether
          (at_rest v whole_ether (on_start v needed initial_state genesis_badge_id started w).1)
          new
      → (cause : BadgeExecutionCause) (badge_id : String) (now timestamp : ℕ)
      → length (v.mongo.documents new.world.badges) < 2 ^ 64
      → timestamp < 2 ^ 64
      → All (IsHashed v) (batch_of v cause badge_id now timestamp new.world)
      → let (r, next) = form_new_L2_block v cause badge_id now timestamp new.world in
        (r ≡ ok tt)
        × ((badge : TransactionBadge) × (next.badges ≡ v.mongo.insert_one badge new.world.badges)
            × (badge.badge_id ≡ badge_id)
            × (badge.blocknumber ≡ length (v.mongo.documents new.world.badges)))
        × (next.curr ≡ v.mongo.update_one any_document (point_to badge_id) new.world.curr)
  next_block_is_written w needed initial_state genesis_badge_id started {new} returned no_badges
        no_curr small run cause badge_id now timestamp fits in_time hashed =
      let p =
        Interleaving-HasPrevious w needed initial_state genesis_badge_id started returned no_badges
          no_curr small run in
      let (r, (h, ids, written), pointer) =
        block_is_written v cause badge_id now timestamp new.world p.blockhash p.prev_id
          p.blocknumber p.key p.previous p.read (omega (arith, p.number, fits)) in_time hashed in
      (r, (_, written, refl, p.number), pointer)
