-- ===== src/Client/Deposits/Laws.antt =====
-- Which deposits the node has accepted after the client's calls, also where one of them raises.
use mathlib.Core.List.{append_assoc, append-nil}
use zkp_rollup.Base.{
  suc, ◌≡◌, ◌∙◌, refl, sym, ap, String, List, [], ◌∷◌, ◌++◌, length, ◌⊎◌, inl, inr,
}
use zkp_rollup.Python.Result.{Error, Result, ok, raised}
use zkp_rollup.Python.Exec.{Exec, continue, ◌>>=◌}
use zkp_rollup.Services.Node.{Node, TxParams, IsNode}
use zkp_rollup.Client.{ClientAccount}
use zkp_rollup.Client.Deposits.{
  contract_address, make_deposit_call, deposit_all, add_users_to_the_rollup,
}

module _ (web3 : Node) (lawful : IsNode web3) where
  -- A transaction that deposits one ether from this address for itself, signed with its key.
  pub record IsDepositOf (contract : web3.Contract) (address private_key : String)
      (signed : web3.SignedTx) : Type 0 where
    pub params : TxParams
    pub state : web3.State
    pub tx : web3.Tx
    pub sender : params.sender ≡ address
    pub value : params.value ≡ web3.to_wei 1
    pub built : web3.build_transaction contract address params state ≡ ok tx
    pub signed_so : web3.sign_transaction tx private_key ≡ ok signed

  -- What a call leaves: nothing was accepted and it raised, or such a transaction was accepted.
  data Outcome (contract : web3.Contract) (address private_key : String) (s : web3.State)
      (end : Result (Unit {0}) × web3.State) : Type 0 where
    refused :
        (e : Error)
        → end.0 ≡ raised e
        → lawful.accepted end.1 ≡ lawful.accepted s
        → Outcome contract address private_key s end
    accepted_one :
        (signed : web3.SignedTx)
        → IsDepositOf contract address private_key signed
        → lawful.accepted end.1 ≡ lawful.accepted s ++ signed ∷ []
        → Outcome contract address private_key s end

  module _ (contract : web3.Contract) (address private_key : String) (s : web3.State) where
    abbrev Ends : Result (Unit {0}) × web3.State → Type 0
    Ends = Outcome contract address private_key s

    -- A reading that raises ends the call, with nothing accepted.
    after_reading :
        {A : Type 0} (r : Result A) (k : A → Exec web3.State (Unit {0}))
        → ((a : A) → r ≡ ok a → Ends (k a s))
        → Ends (continue k (r, s))
    after_reading (ok a) k next = next a refl
    after_reading (raised e) k next = refused e refl refl

    sent_and_waited :
        (signed : web3.SignedTx)
        → IsDepositOf contract address private_key signed
        → Ends ((web3.send_raw_transaction signed >>= web3.wait_for_transaction_receipt) s)
    sent_and_waited signed d =
        go (web3.send_raw_transaction signed s) (lawful.accepted-sent signed s)
          (lawful.accepted-refused signed s)
      where
        go :
            (end : Result web3.Hash × web3.State)
            → ((tx_hash : web3.Hash)
                → end.0 ≡ ok tx_hash
                → lawful.accepted end.1 ≡ lawful.accepted s ++ signed ∷ [])
            → ((e : Error)
                → end.0 ≡ raised e
                → (lawful.accepted end.1 ≡ lawful.accepted s)
                  ⊎ (lawful.accepted end.1 ≡ lawful.accepted s ++ signed ∷ []))
            → Ends (continue web3.wait_for_transaction_receipt end)
        go (ok tx_hash, t) sent unsent =
            accepted_one signed d (lawful.accepted-waited tx_hash t ∙ sent tx_hash refl)
        go (raised e, t) sent unsent = elim (unsent e refl) [
          | inl same ↦ refused e refl same
          | inr added ↦ accepted_one signed d added
        ]

    make_deposit_call-Ends : Ends (make_deposit_call web3 address private_key contract s)
    unfolding make_deposit_call
    make_deposit_call-Ends =
        let value = web3.to_wei 1 in
        after_reading (web3.estimate_gas contract address address value s) _ (λ gas e.
          after_reading (web3.gas_price s) _ (λ price e2.
            after_reading (web3.get_transaction_count address s) _ (λ nonce e3.
              let params : TxParams = record {
                sender = address;
                value = value;
                gas = gas;
                gas_price = price;
                nonce = nonce;
              } in
              after_reading (web3.build_transaction contract address params s) _ (λ tx built.
                after_reading (web3.sign_transaction tx private_key) _ (λ signed signed_so.
                  sent_and_waited signed (record {
                    params = params;
                    state = s;
                    tx = tx;
                    sender = refl;
                    value = refl;
                    built = built;
                    signed_so = signed_so;
                  }))))))

  -- These are deposits of the accounts at the front of the list, in its order.
  abbrev pub AreDeposits : web3.Contract → List ClientAccount → List web3.SignedTx → Type 0
  AreDeposits contract accs [] = Unit
  AreDeposits contract [] (signed ∷ more) = ⊥
  AreDeposits contract (acc ∷ accs) (signed ∷ more) =
      IsDepositOf contract acc.pub_key acc.priv_key signed × AreDeposits contract accs more

  -- One for every account, or the call has raised.
  abbrev IsWhole : List ClientAccount → List web3.SignedTx → Result (Unit {0}) → Type 0
  IsWhole accs sent r = (length sent ≡ length accs) ⊎ ((e : Error) × (r ≡ raised e))

  pub record Deposited (contract : web3.Contract) (accs : List ClientAccount) (s : web3.State)
      (end : Result (Unit {0}) × web3.State) : Type 0 where
    pub sent : List web3.SignedTx
    pub accepted : lawful.accepted end.1 ≡ lawful.accepted s ++ sent
    pub deposits : AreDeposits contract accs sent
    pub whole : IsWhole accs sent end.0

  one_more :
      (contract : web3.Contract) (acc : ClientAccount) (accs : List ClientAccount) (s : web3.State)
      (end : Result (Unit {0}) × web3.State)
      → Outcome contract acc.pub_key acc.priv_key s end
      → ((t : web3.State) → Deposited contract accs t (deposit_all web3 contract accs t))
      → Deposited contract (acc ∷ accs) s (continue (λ done. deposit_all web3 contract accs) end)
  one_more contract acc accs s (raised e, t) (refused e2 r same) rest = record {
    sent = [];
    accepted = same ∙ sym (append-nil (lawful.accepted s));
    deposits = tt;
    whole = inr (e, refl);
  }
  one_more contract acc accs s (ok done, t) (refused e2 r same) rest = cc
  one_more contract acc accs s (raised e, t) (accepted_one signed d added) rest = record {
    sent = signed ∷ [];
    accepted = added;
    deposits = (d, tt);
    whole = inr (e, refl);
  }
  one_more contract acc accs s (ok done, t) (accepted_one signed d added) rest =
      let later = rest t in
      record {
        sent = signed ∷ later.sent;
        accepted =
            later.accepted
            ∙ ap (λ before. before ++ later.sent) added
            ∙ append_assoc (lawful.accepted s) (signed ∷ []) later.sent;
        deposits = (d, later.deposits);
        whole = elim later.whole [ inl e ↦ inl (ap suc e) | inr x ↦ inr x ];
      }

  deposit_all-Deposited :
      (contract : web3.Contract) (accs : List ClientAccount) (s : web3.State)
      → Deposited contract accs s (deposit_all web3 contract accs s)
  unfolding deposit_all
  deposit_all-Deposited contract [] s = record {
    sent = [];
    accepted = sym (append-nil (lawful.accepted s));
    deposits = tt;
    whole = inl refl;
  }
  deposit_all-Deposited contract (acc ∷ accs) s =
      one_more contract acc accs s (make_deposit_call web3 acc.pub_key acc.priv_key contract s)
        (make_deposit_call-Ends contract acc.pub_key acc.priv_key s)
        (deposit_all-Deposited contract accs)

  -- Where the address of the contract can be read, whatever the node answers and wherever a call raises:
  -- what it has accepted since are deposits of one ether by the accounts at the front of the list, in
  -- its order, each from its own address for itself and signed with its key; there is one for every
  -- account, or the task has raised.
  pub add_users-Deposited :
      (contract_abi : web3.Abi) (accs : List ClientAccount) (address : String) (s : web3.State)
      → web3.to_checksum_address contract_address ≡ ok address
      → Deposited
          (web3.contract address contract_abi)
          accs
          s
          (add_users_to_the_rollup web3 contract_abi accs s)
  unfolding add_users_to_the_rollup
  add_users-Deposited contract_abi accs address s e =
      rw e (deposit_all-Deposited (web3.contract address contract_abi) accs s)
