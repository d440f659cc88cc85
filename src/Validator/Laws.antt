-- ===== src/Validator/Laws.antt =====
-- The transactions that `check_transaction_validity` accepts.
use zkp_rollup.Base.{◌≡◌, ◌↔◌, ap, String, Bool, true, Option, some, arith}
use zkp_rollup.Python.Result.{Result, Error, ok, raised, attribute_error, require, >>=-eq-ok}
use zkp_rollup.Python.Bytes.{Bytes}
use zkp_rollup.Utils.{hex_to_bytes}
use zkp_rollup.Types.{Transaction}
use zkp_rollup.Services.{Services}
use zkp_rollup.Validator.{message_bytes, or_false, check_transaction_validity}

or_false-true : (r : Result Bool) → or_false r ≡ true → r ≡ ok true
or_false-true (ok b) h = ap ok h
or_false-true (raised e) h = cc

require-ok : {A : Type 0} (e : Error) (o : Option A) {a : A} → require e o ≡ ok a → o ≡ some a
require-ok e Option.none h = cc
require-ok e (some b) h = ground arith

module _ (v : Services) (t : Transaction) where
  -- A transaction with a signature and a public key, both hexadecimal, of which the key verifies the
  -- signature over the message of the transaction. The sender's address occurs in the message, and
  -- nothing ties the key to it.
  pub record IsSigned : Type 0 where
    pub signature_text : String
    pub pub_key_text : String
    pub signature_bytes : Bytes
    pub pubkey_bytes : Bytes
    pub signature : v.crypto.Signature
    pub public_key : v.crypto.PublicKey
    pub signed : t.signature ≡ some signature_text
    pub keyed : t.pub_key ≡ some pub_key_text
    pub signature_hex : hex_to_bytes signature_text ≡ ok signature_bytes
    pub pub_key_hex : hex_to_bytes pub_key_text ≡ ok pubkey_bytes
    pub signature_read : v.crypto.signature_of signature_bytes ≡ ok signature
    pub key_read : v.crypto.public_key_of pubkey_bytes ≡ ok public_key
    pub verified : v.crypto.verify_msg public_key (message_bytes t) signature ≡ ok true

  -- The validator accepts exactly the transactions that some public key signs: the key is the one
  -- that the transaction brings along, and need not be the sender's.
  pub check_transaction_validity-true_iff : (check_transaction_validity v t ≡ true) ↔ IsSigned
  unfolding check_transaction_validity
  check_transaction_validity-true_iff = (
    λ h.
        let (signature_text, signed, r1) =
          >>=-eq-ok (require attribute_error t.signature) _ (or_false-true _ h) in
        let (signature_bytes, signature_hex, r2) = >>=-eq-ok (hex_to_bytes signature_text) _ r1 in
        let (pub_key_text, keyed, r3) = >>=-eq-ok (require attribute_error t.pub_key) _ r2 in
        let (pubkey_bytes, pub_key_hex, r4) = >>=-eq-ok (hex_to_bytes pub_key_text) _ r3 in
        let (signature, signature_read, r5) =
          >>=-eq-ok (v.crypto.signature_of signature_bytes) _ r4 in
        let (public_key, key_read, verified) =
          >>=-eq-ok (v.crypto.public_key_of pubkey_bytes) _ r5 in
        record {
          signature_text = signature_text;
          pub_key_text = pub_key_text;
          signature_bytes = signature_bytes;
          pubkey_bytes = pubkey_bytes;
          signature = signature;
          public_key = public_key;
          signed = require-ok attribute_error t.signature signed;
          keyed = require-ok attribute_error t.pub_key keyed;
          signature_hex = signature_hex;
          pub_key_hex = pub_key_hex;
          signature_read = signature_read;
          key_read = key_read;
          verified = verified;
        },
    λ s. ground (
      arith, s.signed, s.keyed, s.signature_hex, s.pub_key_hex, s.signature_read, s.key_read,
      s.verified,
    ),
  )
