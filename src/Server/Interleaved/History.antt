-- ===== src/Server/Interleaved/History.antt =====
-- The collection of transactions while the tasks interleave.
use zkp_rollup.Base.{
  ℕ, ◌+◌, ◌≡◌, refl, ◌∙◌, ap, String, Bool, false, not, ◌&&◌, List, [], ◌∷◌, ◌++◌, map, Option, eqb,
  arith, Bool-cases, inl, inr, if◌then◌else◌,
}
use zkp_rollup.Python.Result.{Result, ok, raised}
use zkp_rollup.Types.{Transaction, status_eq}
use zkp_rollup.Services.{Services, IsServices}
use zkp_rollup.Services.Mongo.{update_first}
use zkp_rollup.State.{World}
use zkp_rollup.MemPool.{is_pending, include, insert_into_queue, has_id_in, ids_of}
use zkp_rollup.MemPool.Batch.{included_ne_pending}
use zkp_rollup.Block.{
  batch_size, fail, by_transaction_id, survivors, batch_queue_producer, apply_to, apply_transaction,
  note_failure,
}
use zkp_rollup.Block.Frame.{apply_to-Frames}
use zkp_rollup.Block.Once.Round.{failed_ne_pending, finish_block-transactions}
use zkp_rollup.Block.Steps.{Position, idle, selected, applying, begin, proceed}
use zkp_rollup.ChainListener.Laws.{deposits_recorded}
use zkp_rollup.Server.Interleaved.{
  System, count_submission, TaskStep, stores, counts, deposits, produces, takes, resumes,
  Interleaving, nothing_yet, and_then,
}

-- A transaction at two times: at most its status has changed, and it is pending only if it was.
pub record IsKept (old new : Transaction) : Type 0 where
  pub same : ◌≡◌ {A = Transaction} (record new { status = old.status }) old
  pub not_again : (is_pending new && not (is_pending old)) ≡ false

-- A collection at two times: every transaction stands where it stood, and others may follow.
abbrev pub IsGrown : List Transaction → List Transaction → Type 0
IsGrown [] us = Unit
IsGrown (t ∷ ts) [] = ⊥
IsGrown (t ∷ ts) (u ∷ us) = IsKept t u × IsGrown ts us

IsKept-refl : (t : Transaction) → IsKept t t
IsKept-refl t = record { same = refl; not_again = ground arith }

IsKept-trans : {a b c : Transaction} → IsKept a b → IsKept b c → IsKept a c
IsKept-trans {a} p q = record {
  same =
      ap {A = Transaction} {B = Transaction} (λ u. record u { status = a.status }) q.same ∙ p.same;
  not_again = ground (arith, p.not_again, q.not_again);
}

IsGrown-refl : (ts : List Transaction) → IsGrown ts ts
IsGrown-refl [] = tt
IsGrown-refl (t ∷ ts) = (IsKept-refl t, IsGrown-refl ts)

IsGrown-trans : (xs ys zs : List Transaction) → IsGrown xs ys → IsGrown ys zs → IsGrown xs zs
IsGrown-trans [] ys zs p q = tt
IsGrown-trans (x ∷ xs) [] zs p q = absurd p
IsGrown-trans (x ∷ xs) (y ∷ ys) [] p q = absurd q
IsGrown-trans (x ∷ xs) (y ∷ ys) (z ∷ zs) (p, ps) (q, qs) =
    (IsKept-trans p q, IsGrown-trans xs ys zs ps qs)

IsGrown-append : (ts us : List Transaction) → IsGrown ts (ts ++ us)
IsGrown-append [] us = tt
IsGrown-append (t ∷ ts) us = (IsKept-refl t, IsGrown-append ts us)

IsGrown-map :
    (f : Transaction → Transaction)
    → ((t : Transaction) → IsKept t (f t))
    → (ts : List Transaction) → IsGrown ts (map f ts)
IsGrown-map f h [] = tt
IsGrown-map f h (t ∷ ts) = (h t, IsGrown-map f h ts)

IsGrown-update_first :
    (p : Transaction → Bool) (f : Transaction → Transaction)
    → ((t : Transaction) → IsKept t (f t))
    → (ts : List Transaction) → IsGrown ts (update_first p f ts)
IsGrown-update_first p f h [] = tt
IsGrown-update_first p f h (t ∷ ts) = elim (Bool-cases (p t)) [
  | inl e ↦ rw e (h t, IsGrown-refl ts)
  | inr e ↦ rw e (IsKept-refl t, IsGrown-update_first p f h ts)
]

include-IsKept : (t : Transaction) → IsKept t (include t)
include-IsKept t = record { same = refl; not_again = rw included_ne_pending }

fail-IsKept : (t : Transaction) → IsKept t (fail t)
fail-IsKept t = record { same = refl; not_again = rw failed_ne_pending }

mark-IsKept :
    (ids : List (Option String)) (t : Transaction)
    → IsKept t (if has_id_in ids t then include t else t)
mark-IsKept ids t = elim (Bool-cases (has_id_in ids t)) [
  | inl e ↦ rw e (include-IsKept t)
  | inr e ↦ rw e (IsKept-refl t)
]

module _ (v : Services) (whole_ether : ℕ → ℕ) (lawful : IsServices v) where
  abbrev Grows : World v → World v → Type 0
  Grows w new = IsGrown (v.mongo.documents w.transactions) (v.mongo.documents new.transactions)

  same-Grows : (w new : World v) → new.transactions ≡ w.transactions → Grows w new
  same-Grows w new e = rw e (IsGrown-refl (v.mongo.documents w.transactions))

  from_same : (w s new : World v) → s.transactions ≡ w.transactions → Grows s new → Grows w new
  from_same w s new e h = rw e at h

  note_failure-Grows :
      (marks : List (Option String)) (t : Transaction) (r : Result (Unit {0})) (s : World v)
      → Grows s (note_failure v marks t (r, s)).1
  unfolding note_failure
  note_failure-Grows marks t (ok done) s = IsGrown-refl (v.mongo.documents s.transactions)
  note_failure-Grows marks t (raised e) s = rw lawful.mongo.documents-update_one (
      IsGrown-update_first (by_transaction_id t.transaction_id) fail fail-IsKept
        (v.mongo.documents s.transactions))

  proceeded-Grows : (p : Position) (w : World v) → Grows w (proceed v p w).1
  unfolding proceed apply_transaction
  proceeded-Grows idle w = IsGrown-refl (v.mongo.documents w.transactions)
  proceeded-Grows (selected d batch) w =
      rw lawful.mongo.documents-update_many
        (IsGrown-map _ (mark-IsKept (ids_of batch)) (v.mongo.documents w.transactions))
  proceeded-Grows (applying d batch marks []) w =
      same-Grows w (proceed v (applying d batch marks []) w).1
        (finish_block-transactions v d.cause d.badge_id d.timestamp batch (survivors marks batch) w)
  proceeded-Grows (applying d batch marks (t ∷ ts)) w =
      let (r, s) = apply_to v d.badge_id t t.receiver w in
      from_same w s (note_failure v marks t (r, s)).1
        (apply_to-Frames v d.badge_id t t.receiver w).transactions (note_failure-Grows marks t r s)

  counted-Grows : (w : World v) → Grows w (count_submission v whole_ether w)
  counted-Grows w = elim (Bool-cases (eqb (w.transaction_counter + 1) batch_size)) [
    | inl e ↦ same-Grows w (count_submission v whole_ether w) (rw e)
    | inr e ↦ same-Grows w (count_submission v whole_ether w) (rw e)
  ]

  pub TaskStep-Grows :
      {s new : System v whole_ether} → TaskStep v whole_ether s new → Grows s.world new.world
  unfolding insert_into_queue batch_queue_producer begin
  TaskStep-Grows {s} (stores request submission_id transaction_id now) =
      rw lawful.mongo.documents-insert_one
        (IsGrown-append (v.mongo.documents s.world.transactions) _)
  TaskStep-Grows {s} (counts rest e) = counted-Grows s.world
  TaskStep-Grows {s} (deposits entry) =
      let (_, _, transactions) = deposits_recorded v whole_ether lawful (entry ∷ []) s.world in
      rw transactions (IsGrown-append (v.mongo.documents s.world.transactions) _)
  TaskStep-Grows {s} produces = IsGrown-refl (v.mongo.documents s.world.transactions)
  TaskStep-Grows {s} (takes cause rest badge_id now timestamp e e2 fresh) =
      IsGrown-refl (v.mongo.documents s.world.transactions)
  TaskStep-Grows {s} resumes = proceeded-Grows s.consumer s.world

  -- Whatever steps the tasks take, interleaved in any order, no stored transaction is lost, moved or
  -- altered: each stands in the collection where it stood, with everything but its status unchanged,
  -- those stored since follow, and one that was not pending is not pending again.
  pub Interleaving-IsGrown :
      {s new : System v whole_ether}
      → Interleaving v whole_ether s new
      → IsGrown (v.mongo.documents s.world.transactions) (v.mongo.documents new.world.transactions)
  Interleaving-IsGrown {s} nothing_yet = IsGrown-refl (v.mongo.documents s.world.transactions)
  Interleaving-IsGrown {s} {new} (and_then run step) =
      IsGrown-trans (v.mongo.documents s.world.transactions) _
        (v.mongo.documents new.world.transactions) (Interleaving-IsGrown run) (TaskStep-Grows step)
