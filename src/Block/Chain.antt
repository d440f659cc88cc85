-- ===== src/Block/Chain.antt =====
-- The chain of blocks in the two collections, and a round of the consumer on it.
use zkp_rollup.Base.{
  ℕ, suc, ◌+◌, ◌≡◌, refl, sym, ap, ◌∙◌, String, string_eq, beq_self, List, [], ◌∷◌, ◌++◌, Option,
  none, some, arith, length, first, length-append, first-append_none,
}
use zkp_rollup.Types.{TransactionBadge, CurrentBadge, Transaction, BadgeExecutionCause}
use zkp_rollup.Services.{Services, IsServices}
use zkp_rollup.Services.Mongo.{update_first}
use zkp_rollup.State.{World}
use zkp_rollup.Block.{
  by_badge_id, any_document, point_to, get_previous_block_information, form_new_L2_block,
}
use zkp_rollup.Block.Form.{Round, nothing, block, form_new_L2_block-Round}

-- Blocks from a number on, each linked to the identifier before it.
abbrev pub IsChain : ℕ → Option String → List TransactionBadge → Type 0
IsChain n before [] = Unit
IsChain n before (b ∷ bs) =
    (b.blocknumber ≡ n) × (b.prev_badge ≡ before) × IsChain (suc n) (some b.badge_id) bs

-- Where a chain ends: the number and the link for the next block.
abbrev pub last_id : Option String → List TransactionBadge → Option String
last_id before [] = before
last_id before (b ∷ bs) = last_id (some b.badge_id) bs

IsChain-append :
    (n : ℕ) (before : Option String) (bs : List TransactionBadge) (b : TransactionBadge)
    → IsChain n before bs
    → b.blocknumber ≡ n + length bs
    → b.prev_badge ≡ last_id before bs
    → IsChain n before (bs ++ b ∷ [])
IsChain-append n before [] b h number link = (omega arith, link, tt)
IsChain-append n before (c ∷ bs) b (hn, hl, h) number link =
    (hn, hl, IsChain-append (suc n) (some c.badge_id) bs b h (omega arith) link)

last_id-append :
    (before : Option String) (bs : List TransactionBadge) (b : TransactionBadge)
    → last_id before (bs ++ b ∷ []) ≡ some b.badge_id
last_id-append before [] b = refl
last_id-append before (c ∷ bs) b = last_id-append (some c.badge_id) bs b

first-update_first :
    (id : String) (cs : List CurrentBadge) (c : CurrentBadge)
    → first any_document cs ≡ some c
    → first any_document (update_first any_document (point_to id) cs) ≡ some (point_to id c)
first-update_first id [] c h = cc
first-update_first id (d ∷ cs) c h = cc

-- The blocks after the genesis block `"0"` form a chain, and the pointer names the last, which is
-- the first document with its identifier and has the highest number.
pub record IsLinked (badges : List TransactionBadge) (curr : List CurrentBadge) : Type 0 where
  pub chain : IsChain 0 (some "0") badges
  pub pointer : CurrentBadge
  pub tip : TransactionBadge
  pub pointed : first any_document curr ≡ some pointer
  pub last : last_id (some "0") badges ≡ some pointer.curr_badge_id
  pub tip_found : first (by_badge_id pointer.curr_badge_id) badges ≡ some tip
  pub tip_named : tip.badge_id ≡ pointer.curr_badge_id
  pub tip_number : tip.blocknumber + 1 ≡ length badges

-- One block more, with the number and the link that the last one asks for.
IsLinked-append :
    (badges : List TransactionBadge) (curr : List CurrentBadge) (badge : TransactionBadge)
    (l : IsLinked badges curr)
    → first (by_badge_id badge.badge_id) badges ≡ none
    → badge.blocknumber ≡ l.tip.blocknumber + 1
    → badge.prev_badge ≡ some l.tip.badge_id
    → IsLinked (badges ++ badge ∷ []) (update_first any_document (point_to badge.badge_id) curr)
IsLinked-append badges curr badge l fresh number link = record {
  chain =
      IsChain-append 0 (some "0") badges badge l.chain (omega (arith, number, l.tip_number))
        (link ∙ ap some l.tip_named ∙ sym l.last);
  pointer = point_to badge.badge_id l.pointer;
  tip = badge;
  pointed = first-update_first badge.badge_id curr l.pointer l.pointed;
  last = last_id-append (some "0") badges badge;
  tip_found =
      first-append_none (by_badge_id badge.badge_id) badges (badge ∷ []) fresh
      ∙ rw (beq_self badge.badge_id);
  tip_named = refl;
  tip_number = rw length-append (omega (arith, number, l.tip_number));
}

module _ (v : Services) where
  -- The two collections of a state hold a chain.
  abbrev pub HasChain : World v → Type 0
  HasChain w = IsLinked (v.mongo.documents w.badges) (v.mongo.documents w.curr)

  module _ (lawful : IsServices v) (w : World v) (linked : HasChain w) where
    pub previous_is_tip :
        get_previous_block_information v w
        ≡ some (linked.tip.blockhash, linked.tip.blocknumber, linked.tip.badge_id)
    unfolding get_previous_block_information
    previous_is_tip = ground (
      arith,
      lawful.mongo.find_one_first any_document w.curr ∙ linked.pointed,
      lawful.mongo.find_one_first (by_badge_id linked.pointer.curr_badge_id) w.badges
          ∙ linked.tip_found,
    )

    pub Round-HasChain :
        (badge_id : String) (ids : List Transaction) (new : World v)
        → first (by_badge_id badge_id) (v.mongo.documents w.badges) ≡ none
        → Round v w badge_id ids new
        → HasChain new
    Round-HasChain badge_id ids new fresh (nothing same_badges same_curr) =
        rw (same_badges, same_curr) linked
    Round-HasChain badge_id ids new fresh
          (block badge h p n e named number link texts root badges curr) =
        let same : some (h, n, p)
            ≡ some (linked.tip.blockhash, linked.tip.blocknumber, linked.tip.badge_id) =
          sym e ∙ previous_is_tip in
        let n_same : n ≡ linked.tip.blocknumber = cc same in
        let p_same : p ≡ linked.tip.badge_id = cc same in
        rw (badges, curr, ← named)
          (rw (lawful.mongo.documents-insert_one, lawful.mongo.documents-update_one)
            (IsLinked-append (v.mongo.documents w.badges) (v.mongo.documents w.curr) badge linked
              (rw named fresh) (number ∙ ap (λ (k : ℕ). k + 1) n_same) (link ∙ ap some p_same)))

    -- A round of the consumer with a new identifier keeps the chain: the blocks stay numbered from 0
    -- without a gap and linked one to the next, and the pointer names the last one, whether the round
    -- forms a block or not.
    pub form_new_L2_block-HasChain :
        (cause : BadgeExecutionCause) (badge_id : String) (now timestamp : ℕ)
        → first (by_badge_id badge_id) (v.mongo.documents w.badges) ≡ none
        → HasChain (form_new_L2_block v cause badge_id now timestamp w).1
    form_new_L2_block-HasChain cause badge_id now timestamp fresh =
        Round-HasChain badge_id _ _ fresh (form_new_L2_block-Round v cause badge_id now timestamp w)
