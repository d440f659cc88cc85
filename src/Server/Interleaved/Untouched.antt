-- ===== src/Server/Interleaved/Untouched.antt =====
-- An account that no transaction involves but those that still wait, while the tasks interleave.
use zkp_rollup.Base.{
  ℕ, zero, suc, ◌+◌, ◌≡◌, ◌∙◌, refl, sym, ap, String, true, string_eq, option_eq, List, [], ◌∷◌,
  Option, some, first-append_some, eqb, arith, Bool-cases, inl, inr,
}
use zkp_rollup.Base.Filter.{All-take, All-map}
use zkp_rollup.Python.Result.{ok}
use zkp_rollup.Python.Bytes.{Bytes}
use zkp_rollup.Utils.{hex_to_bytes}
use zkp_rollup.Types.{Transaction, AccountDocument, BadgeExecutionCause, status_eq}
use zkp_rollup.Services.{Services, IsServices}
use zkp_rollup.Services.Mongo.Laws.{sorted-All_imp}
use zkp_rollup.State.{World}
use zkp_rollup.State.Accounts.{find_account, by_address}
use zkp_rollup.MerkleTree.Transfer.Funds.{leaf_at}
use zkp_rollup.MemPool.{due, is_due, ids_of, insert_into_queue}
use zkp_rollup.Block.{batch_size, finish_block, insert_new_badge, batch_queue_producer, survivors}
use zkp_rollup.Block.Form.{bound_of}
use zkp_rollup.Block.Steps.{Position, idle, selected, applying, begin, proceed}
use zkp_rollup.Block.Untouched.{IsSpared, IsSpared-refl, IsSpared-trans, applied-IsSpared}
use zkp_rollup.ChainListener.{DepositEntry, handle_deposit_entries}
use zkp_rollup.ChainListener.Laws.{deposits_recorded, handle_deposit_entries-SameService}
use zkp_rollup.Server.Interleaved.{
  System, count_submission, at_rest, TaskStep, stores, counts, deposits, produces, takes, resumes,
  Interleaving, nothing_yet, and_then,
}
use zkp_rollup.Server.Interleaved.History.{IsGrown, TaskStep-Grows}
use zkp_rollup.Server.Interleaved.Waiting.{
  AllLeave, AllSpare, AllTwins, has_twin, all_twins, AllTwins-grow, AllLeave-before, marked_spares,
  own_ids-contained,
}

module _ (v : Services) (whole_ether : ℕ → ℕ) (lawful : IsServices v) (address : String)
    (key : Bytes) (named : hex_to_bytes address ≡ ok key) where
  abbrev Spared : World v → World v → Type 0
  Spared old new = IsSpared v lawful address key named old new

  abbrev stored : World v → List Transaction
  stored w = v.mongo.documents w.transactions

  -- What the consumer has found and not yet marked is stored; what it still applies spares the account.
  abbrev Ahead : Position → World v → Type 0
  Ahead idle w = Unit
  Ahead (selected d batch) w = AllTwins key (stored w) batch
  Ahead (applying d batch marks ts) w = AllSpare key ts

  Ahead-grows :
      (p : Position) (w new : World v) → IsGrown (stored w) (stored new) → Ahead p w → Ahead p new
  Ahead-grows idle w new grown ahead = tt
  Ahead-grows (selected d batch) w new grown ahead =
      AllTwins-grow key batch (stored w) (stored new) grown ahead
  Ahead-grows (applying d batch marks ts) w new grown ahead = ahead

  limit-AllTwins :
      (all : List Transaction) (n : ℕ) (ts : List Transaction)
      → AllTwins key all ts
      → AllTwins key all (v.mongo.limit n ts)
  limit-AllTwins all zero ts h = rw (lawful.mongo.limit_zero ts) h
  limit-AllTwins all (suc n) ts h =
      rw (lawful.mongo.limit_take (suc n) ts (λ e. absurd (omega (arith, e))))
        (All-take (λ t. has_twin key all t ≡ true) (suc n) ts h)

  due-AllTwins : (bound : Option ℕ) (w : World v) → AllTwins key (stored w) (due v bound w)
  due-AllTwins bound w = limit-AllTwins (stored w) v.badge_size _ (
      sorted-All_imp v.mongo lawful.mongo _ (is_due bound) w.transactions (has_twin key (stored w))
        (All-map (λ t. has_twin key (stored w) t ≡ true) (λ t h due. h) (stored w)
          (all_twins key (stored w))))

  finish_block-Spared :
      (cause : BadgeExecutionCause) (badge_id : String) (timestamp : ℕ)
      (batch delta : List Transaction) (s : World v)
      → Spared s (finish_block v cause badge_id timestamp batch delta s).1
  unfolding finish_block insert_new_badge
  finish_block-Spared cause badge_id timestamp batch delta s = ground arith

  same :
      (w new : World v)
      → new.users ≡ w.users
      → new.sparse_merkle_tree ≡ w.sparse_merkle_tree
      → Spared w new
  same w new users tree = record {
    document = ap (find_account v address) users;
    leaf = ap (λ tree. v.smt.get tree key) tree;
  }

  proceed-Spared :
      (p : Position) (w : World v)
      → AllLeave key (stored (proceed v p w).1)
      → Ahead p w
      → let (next, new) = proceed v p w in Spared w new × Ahead next new
  unfolding proceed
  proceed-Spared idle w all ahead = (IsSpared-refl v lawful address key named w, tt)
  proceed-Spared (selected d batch) w all ahead = (
    same w _ refl refl,
    marked_spares key (ids_of batch) (stored w) batch (rw lawful.mongo.documents-update_many at all)
        (own_ids-contained batch) ahead,
  )
  proceed-Spared (applying d batch marks []) w all ahead =
      (finish_block-Spared d.cause d.badge_id d.timestamp batch (survivors marks batch) w, tt)
  proceed-Spared (applying d batch marks (t ∷ ts)) w all (one, ahead) =
      (applied-IsSpared v lawful address key named d.badge_id marks t w one, ahead)

  counted-Spared : (w : World v) → Spared w (count_submission v whole_ether w)
  counted-Spared w = elim (Bool-cases (eqb (w.transaction_counter + 1) batch_size)) [
    | inl e ↦ same w (count_submission v whole_ether w) (rw e) (rw e)
    | inr e ↦ same w (count_submission v whole_ether w) (rw e) (rw e)
  ]

  -- A deposit, to this address or to another, comes after the document that is there.
  deposit-Spared :
      (entry : DepositEntry) (w : World v) (d : AccountDocument)
      → find_account v address w.users ≡ some d
      → Spared w (handle_deposit_entries v whole_ether (entry ∷ []) w).1
  unfolding find_account
  deposit-Spared entry w d found =
      let (_, users, _) = deposits_recorded v whole_ether lawful (entry ∷ []) w in
      let kept = handle_deposit_entries-SameService v whole_ether (entry ∷ []) w in
      let there = sym (lawful.mongo.find_one_first (by_address address) w.users) ∙ found in
      record {
        document =
            lawful.mongo.find_one_first (by_address address) _
            ∙ rw users
                (first-append_some (by_address address) (v.mongo.documents w.users) _ d there)
            ∙ sym found;
        leaf = ap (λ tree. v.smt.get tree key) kept.sparse_merkle_tree;
      }

  TaskStep-Spared :
      {s new : System v whole_ether} (d : AccountDocument)
      → TaskStep v whole_ether s new
      → IsGrown (stored s.world) (stored new.world)
      → find_account v address s.world.users ≡ some d
      → AllLeave key (stored new.world)
      → Ahead s.consumer s.world
      → Spared s.world new.world × Ahead new.consumer new.world
  unfolding insert_into_queue batch_queue_producer begin
  TaskStep-Spared {s} d (stores request submission_id transaction_id now) grown found all ahead =
      (same s.world _ refl refl, Ahead-grows s.consumer s.world _ grown ahead)
  TaskStep-Spared {s} d (counts n e) grown found all ahead =
      (counted-Spared s.world, Ahead-grows s.consumer s.world _ grown ahead)
  TaskStep-Spared {s} d (deposits entry) grown found all ahead =
      (deposit-Spared entry s.world d found, Ahead-grows s.consumer s.world _ grown ahead)
  TaskStep-Spared {s} d produces grown found all ahead =
      (same s.world _ refl refl, Ahead-grows s.consumer s.world _ grown ahead)
  TaskStep-Spared {s} d (takes cause causes badge_id now timestamp e e2 fresh) grown found all
        ahead =
      (
        same s.world _ refl refl,
        due-AllTwins (bound_of cause s.world.last_timestamp) (record s.world { queue = causes }),
      )
  TaskStep-Spared {s} d resumes grown found all ahead = proceed-Spared s.consumer s.world all ahead

  run-Spared :
      {w : World v} {new : System v whole_ether} (d : AccountDocument)
      → find_account v address w.users ≡ some d
      → Interleaving v whole_ether (at_rest v whole_ether w) new
      → AllLeave key (stored new.world)
      → Spared w new.world × Ahead new.consumer new.world
  run-Spared {w} d found nothing_yet all = (IsSpared-refl v lawful address key named w, tt)
  run-Spared {w} {new} d found (and_then {s} run step) all =
      let grown = TaskStep-Grows v whole_ether lawful step in
      let (spared, ahead) =
        run-Spared d found run
          (AllLeave-before key (stored s.world) (stored new.world) grown all) in
      let (next, ahead_next) = TaskStep-Spared d step grown (spared.document ∙ found) all ahead in
      (IsSpared-trans v lawful address key named w s.world new.world spared next, ahead_next)

  -- Whatever steps the tasks take, interleaved in any order, and whether transfers succeed, fail or
  -- fail halfway: if in the end every stored transaction that has these bytes as sender or receiver is
  -- still pending, and there was an account with this address to begin with, then a look-up finds the
  -- document that it found at first, and the leaf is the one from the beginning.
  pub uninvolved_untouched :
      {w : World v} {new : System v whole_ether} (d : AccountDocument)
      → find_account v address w.users ≡ some d
      → Interleaving v whole_ether (at_rest v whole_ether w) new
      → AllLeave key (stored new.world)
      → (find_account v address new.world.users ≡ some d)
        × (leaf_at v key new.world ≡ leaf_at v key w)
  uninvolved_untouched d found run all =
      let (spared, _) = run-Spared d found run all in (spared.document ∙ found, spared.leaf)
