-- ===== src/Server/Interleaved/Typed.antt =====
-- What the collections hold while the tasks interleave: transactions in the shape of a submission or
-- of a deposit, and accounts that can be read.
use zkp_rollup.Base.{
  ℕ, zero, suc, ◌+◌, ◌≡◌, refl, String, true, List, [], ◌∷◌, All, map, Option, eqb, arith,
  Bool-cases, inl, inr, if◌then◌else◌, string_eq,
}
use zkp_rollup.Base.Filter.{All-take, All-map, All-append}
use zkp_rollup.Python.Result.{Result, ok, raised}
use zkp_rollup.Types.{Transaction, TransactionStatus, BadgeExecutionCause, status_eq}
use zkp_rollup.Services.{Services, IsServices}
use zkp_rollup.Services.Mongo.Laws.{sorted-All_imp, All-update_first}
use zkp_rollup.State.{World}
use zkp_rollup.MemPool.{due, is_due, has_id_in, ids_of, include, insert_into_queue}
use zkp_rollup.Block.{
  batch_size, fail, by_transaction_id, finish_block, insert_new_badge, batch_queue_producer,
  survivors, apply_to, apply_transaction, note_failure, enrich_transaction,
}
use zkp_rollup.Block.Form.{bound_of}
use zkp_rollup.Block.Frame.{apply_to-Frames}
use zkp_rollup.Block.Once.Round.{finish_block-transactions}
use zkp_rollup.Block.Steps.{Position, idle, selected, applying, begin, proceed}
use zkp_rollup.Block.Typed.{is_typed, IsTypedAccount, is_typed-status}
use zkp_rollup.Block.Typed.Accounts.{TypedUsers, applied-StayTyped}
use zkp_rollup.ChainListener.{DepositEntry, handle_deposit_entries}
use zkp_rollup.ChainListener.Laws.{deposits_recorded}
use zkp_rollup.Server.Interleaved.{
  System, count_submission, at_rest, TaskStep, stores, counts, deposits, produces, takes, resumes,
  Interleaving, nothing_yet, and_then,
}

abbrev IsTyped : Transaction → Type 0
IsTyped t = is_typed t ≡ true

abbrev pub AllTyped : List Transaction → Type 0
AllTyped ts = All IsTyped ts

include-IsTyped :
    (ids : List (Option String)) (t : Transaction)
    → IsTyped t
    → IsTyped (if has_id_in ids t then include t else t)
include-IsTyped ids t h = elim (Bool-cases (has_id_in ids t)) [
  | inl e ↦ rw e (is_typed-status t TransactionStatus.included h)
  | inr e ↦ rw e h
]

map-AllTyped :
    (ids : List (Option String)) (ts : List Transaction)
    → AllTyped ts
    → AllTyped (map (λ t. if has_id_in ids t then include t else t) ts)
map-AllTyped ids [] all = tt
map-AllTyped ids (t ∷ ts) (one, all) = (include-IsTyped ids t one, map-AllTyped ids ts all)

module _ (v : Services) (whole_ether : ℕ → ℕ) (lawful : IsServices v) where
  abbrev pub stored : World v → List Transaction
  stored w = v.mongo.documents w.transactions

  -- What the consumer has found and what it still has to apply.
  abbrev Ahead : Position → Type 0
  Ahead idle = Unit
  Ahead (selected d batch) = AllTyped batch
  Ahead (applying d batch marks ts) = AllTyped ts

  abbrev pub TypedDocuments : World v → Type 0
  TypedDocuments w = AllTyped (stored w) × TypedUsers v lawful w

  limit-AllTyped : (n : ℕ) (ts : List Transaction) → AllTyped ts → AllTyped (v.mongo.limit n ts)
  limit-AllTyped zero ts h = rw (lawful.mongo.limit_zero ts) h
  limit-AllTyped (suc n) ts h =
      rw (lawful.mongo.limit_take (suc n) ts (λ e. absurd (omega (arith, e))))
        (All-take IsTyped (suc n) ts h)

  due-AllTyped : (bound : Option ℕ) (w : World v) → AllTyped (stored w) → AllTyped (due v bound w)
  due-AllTyped bound w all = limit-AllTyped v.badge_size _ (
      sorted-All_imp v.mongo lawful.mongo _ (is_due bound) w.transactions is_typed
        (All-map IsTyped (λ t h due. h) (stored w) all))

  marked :
      (marks : List (Option String)) (t : Transaction) (r : Result (Unit {0})) (s : World v)
      → AllTyped (stored s)
      → AllTyped (stored (note_failure v marks t (r, s)).1)
  unfolding note_failure
  marked marks t (ok done) s all = all
  marked marks t (raised e) s all = rw lawful.mongo.documents-update_one (
      All-update_first IsTyped (by_transaction_id t.transaction_id) fail
        (λ u. is_typed-status u TransactionStatus.failed) (stored s) all)

  finish_block-users :
      (cause : BadgeExecutionCause) (badge_id : String) (timestamp : ℕ)
      (batch delta : List Transaction) (s : World v)
      → (finish_block v cause badge_id timestamp batch delta s).1.users ≡ s.users
  unfolding finish_block insert_new_badge
  finish_block-users cause badge_id timestamp batch delta s = ground arith

  same_stored :
      (w new : World v)
      → new.transactions ≡ w.transactions
      → AllTyped (stored w)
      → AllTyped (stored new)
  same_stored w new e all = rw e all

  same_documents :
      (w new : World v)
      → new.transactions ≡ w.transactions
      → new.users ≡ w.users
      → TypedDocuments w
      → TypedDocuments new
  same_documents w new e e2 (all, users) = (same_stored w new e all, rw e2 users)

  proceed-Typed :
      (p : Position) (w : World v)
      → TypedDocuments w
      → Ahead p
      → let (next, new) = proceed v p w in TypedDocuments new × Ahead next
  unfolding proceed apply_transaction
  proceed-Typed idle w typed ahead = (typed, tt)
  proceed-Typed (selected d batch) w (all, users) ahead = (
    (rw lawful.mongo.documents-update_many (map-AllTyped (ids_of batch) (stored w) all), users),
    ahead,
  )
  proceed-Typed (applying d batch marks []) w typed ahead = (
    same_documents w (proceed v (applying d batch marks []) w).1
        (finish_block-transactions v d.cause d.badge_id d.timestamp batch (survivors marks batch) w)
        (finish_block-users d.cause d.badge_id d.timestamp batch (survivors marks batch) w) typed,
    tt,
  )
  proceed-Typed (applying d batch marks (t ∷ ts)) w (all, users) (one, ahead) =
      let (r, s) = apply_to v d.badge_id t t.receiver w in
      let same = (apply_to-Frames v d.badge_id t t.receiver w).transactions in
      let before = same_stored w s same all in
      (
        (marked marks t r s before, applied-StayTyped v lawful d.badge_id marks t w one users),
        ahead,
      )

  counted-Typed :
      (w : World v) → TypedDocuments w → TypedDocuments (count_submission v whole_ether w)
  counted-Typed w typed = elim (Bool-cases (eqb (w.transaction_counter + 1) batch_size)) [
    | inl e ↦ rw e typed
    | inr e ↦ rw e typed
  ]

  deposit-Typed :
      (entry : DepositEntry) (w : World v)
      → TypedDocuments w
      → TypedDocuments (handle_deposit_entries v whole_ether (entry ∷ []) w).1
  deposit-Typed entry w (all, accounts) =
      let (_, users, transactions) = deposits_recorded v whole_ether lawful (entry ∷ []) w in
      (
        rw transactions (All-append IsTyped (stored w) _ all (refl, tt)),
        rw users (All-append IsTypedAccount (v.mongo.documents w.users) _ accounts (tt, tt)),
      )

  TaskStep-Typed :
      {s new : System v whole_ether}
      → TaskStep v whole_ether s new
      → TypedDocuments s.world
      → Ahead s.consumer
      → TypedDocuments new.world × Ahead new.consumer
  unfolding insert_into_queue batch_queue_producer begin enrich_transaction
  TaskStep-Typed {s} (stores request submission_id transaction_id now) (all, users) ahead = (
    (
      rw lawful.mongo.documents-insert_one (All-append IsTyped (stored s.world) _ all (refl, tt)),
      users,
    ),
    ahead,
  )
  TaskStep-Typed {s} (counts n e) typed ahead = (counted-Typed s.world typed, ahead)
  TaskStep-Typed {s} (deposits entry) typed ahead = (deposit-Typed entry s.world typed, ahead)
  TaskStep-Typed {s} produces typed ahead = (typed, ahead)
  TaskStep-Typed {s} (takes cause causes badge_id now timestamp e e2 fresh) (all, users) ahead = (
    (all, users),
    due-AllTyped (bound_of cause s.world.last_timestamp) (record s.world { queue = causes }) all,
  )
  TaskStep-Typed {s} resumes typed ahead = proceed-Typed s.consumer s.world typed ahead

  pub Interleaving-Typed :
      {w : World v} {new : System v whole_ether}
      → TypedDocuments w
      → Interleaving v whole_ether (at_rest v whole_ether w) new
      → TypedDocuments new.world × Ahead new.consumer
  Interleaving-Typed typed nothing_yet = (typed, tt)
  Interleaving-Typed typed (and_then run step) =
      let (before, ahead) = Interleaving-Typed typed run in TaskStep-Typed step before ahead
