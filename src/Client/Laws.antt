-- ===== src/Client/Laws.antt =====
-- The load generator's transactions before the sequencer's check.
use zkp_rollup.Base.{ℕ, ◌≡◌, refl, sym, String, true}
use zkp_rollup.Base.Int.{ℤ}
use zkp_rollup.Python.Float.{to_float}
use zkp_rollup.Python.Result.{ok, >>=-eq-ok}
use zkp_rollup.Utils.{hex_to_bytes, bytes_to_hex}
use zkp_rollup.Utils.Laws.{hex_to_bytes-bytes_to_hex}
use zkp_rollup.Types.{TransactionRequest}
use zkp_rollup.Services.{Services}
use zkp_rollup.Validator.{message_bytes, check_transaction_validity}
use zkp_rollup.Validator.Laws.{IsSigned, check_transaction_validity-true_iff}
use zkp_rollup.Block.{enrich_transaction}
use zkp_rollup.Client.{Signer, IsSigner, ClientAccount, client_message, create_transaction, amount}

module _ (v : Services) (s : Signer v.crypto) (lawful : IsSigner s) where
  -- The request that a private key makes.
  abbrev pub signed_request : ClientAccount → ClientAccount → ℤ → s.PrivateKey → TransactionRequest
  signed_request sender receiver nonce key = record {
    sender = sender.pub_key;
    receiver = receiver.pub_key;
    amount = amount;
    nonce = nonce;
    signature = record {
      pub_key = bytes_to_hex (s.key_bytes (s.public_key key));
      signature = bytes_to_hex (
          s.signature_bytes
            (s.sign_msg key (client_message sender.pub_key receiver.pub_key nonce)));
    };
  }

  signed_request-IsSigned :
      (sender receiver : ClientAccount) (nonce : ℤ) (key : s.PrivateKey)
      (submission_id transaction_id : String) (now : ℕ)
      → IsSigned v (
          enrich_transaction
            (signed_request sender receiver nonce key)
            submission_id
            transaction_id
            now)
  unfolding enrich_transaction message_bytes client_message to_float
  signed_request-IsSigned sender receiver nonce key submission_id transaction_id now =
      let message = client_message sender.pub_key receiver.pub_key nonce in
      let signature = s.sign_msg key message in
      let public_key = s.public_key key in
      record {
        signature_text = bytes_to_hex (s.signature_bytes signature);
        pub_key_text = bytes_to_hex (s.key_bytes public_key);
        signature_bytes = s.signature_bytes signature;
        pubkey_bytes = s.key_bytes public_key;
        signature = signature;
        public_key = public_key;
        signed = refl;
        keyed = refl;
        signature_hex =
            hex_to_bytes-bytes_to_hex (s.signature_bytes signature)
              (lawful.signature_is_bytes signature);
        pub_key_hex =
            hex_to_bytes-bytes_to_hex (s.key_bytes public_key) (lawful.key_is_bytes public_key);
        signature_read = lawful.signature_read signature;
        key_read = lawful.key_read public_key;
        verified = lawful.signed key message;
      }

  -- A transaction that the load generator creates passes the signature check of the sequencer,
  -- whatever the identifiers and the time that it is given.
  pub created_is_valid :
      (sender receiver : ClientAccount) (nonce : ℤ) (request : TransactionRequest)
      (submission_id transaction_id : String) (now : ℕ)
      → create_transaction s sender receiver nonce ≡ ok request
      → check_transaction_validity v (enrich_transaction request submission_id transaction_id now)
        ≡ true
  unfolding create_transaction
  created_is_valid sender receiver nonce request submission_id transaction_id now created =
      let (key_text, _, r1) = >>=-eq-ok (hex_to_bytes sender.priv_key) _ created in
      let (key, _, built) = >>=-eq-ok (s.private_key_of key_text) _ r1 in
      let same : signed_request sender receiver nonce key ≡ request = cc built in
      (check_transaction_validity-true_iff v
          (enrich_transaction request submission_id transaction_id now)).1
        (rw (sym same)
          (signed_request-IsSigned sender receiver nonce key submission_id transaction_id now))
