-- ===== src/Services/Memory.antt =====
-- Services that behave as documented, at which the theorems' hypotheses hold: collections are
-- lists, a tree is the list of its updates, a digest is padding.
use zkp_rollup.Base.{
  ℕ, zero, suc, ◌≤◌, ◌≡◌, ◌≢◌, refl, Bool, true, false, String, List, [], ◌∷◌, ◌++◌, map, arith,
  leb, length, take, first, filter, All, none, some, if◌then◌else◌, bytes_discrete, ite,
}
use zkp_rollup.Python.Bytes.{Bytes, hex}
use zkp_rollup.Python.Result.{ok}
use zkp_rollup.Services.Mongo.{Mongo, IsMongo, update_first, IsDescending}
use zkp_rollup.Services.Smt.{Smt, IsSmt}
use zkp_rollup.Services.Crypto.{Crypto, IsCrypto}

module _ {ℓ} {D : Type ℓ} (key : D → ℕ) where
  insert_descending : D → List D → List D
  insert_descending d [] = d ∷ []
  insert_descending d (e ∷ es) =
      let later = insert_descending d es in if leb (key e) (key d) then d ∷ e ∷ es else e ∷ later

  unfoldable pub sort_list : List D → List D
  unfolding insert_descending
  sort_list [] = []
  sort_list (d ∷ ds) = insert_descending d (sort_list ds)

  insert_descending-same :
      (p : D → Bool) (d : D) (ds : List D)
      → length (filter p (insert_descending d ds)) ≡ length (filter p (d ∷ ds))
  unfolding insert_descending
  insert_descending-same p d [] = refl
  insert_descending-same p d (e ∷ es) = ground (arith, insert_descending-same p d es)

  pub sort_list-same :
      (p : D → Bool) (ds : List D) → length (filter p (sort_list ds)) ≡ length (filter p ds)
  unfolding sort_list
  sort_list-same p [] = refl
  sort_list-same p (d ∷ ds) =
      ground (arith, insert_descending-same p d (sort_list ds), sort_list-same p ds)

  All-le : (a b : ℕ) (ds : List D) → a ≤ b → All (λ e. key e ≤ a) ds → All (λ e. key e ≤ b) ds
  All-le a b [] h hs = tt
  All-le a b (d ∷ ds) h hs = (omega arith, All-le a b ds h hs.1)

  insert_descending-All :
      (n : ℕ) (d : D) (ds : List D)
      → key d ≤ n
      → All (λ e. key e ≤ n) ds
      → All (λ e. key e ≤ n) (insert_descending d ds)
  unfolding insert_descending
  insert_descending-All n d [] h hs = (h, tt)
  insert_descending-All n d (e ∷ es) h hs = ground (arith, insert_descending-All n d es h hs.1)

  insert_descending-IsDescending :
      (d : D) (ds : List D) → IsDescending key ds → IsDescending key (insert_descending d ds)
  unfolding insert_descending
  insert_descending-IsDescending d [] h = (tt, tt)
  insert_descending-IsDescending d (e ∷ es) h = ground (
    arith,
    All-le (key e) (key d) es,
    insert_descending-All (key e) d es,
    insert_descending-IsDescending d es h.1,
  )

  pub sort_list-IsDescending : (ds : List D) → IsDescending key (sort_list ds)
  unfolding sort_list
  sort_list-IsDescending [] = tt
  sort_list-IsDescending (d ∷ ds) =
      insert_descending-IsDescending d (sort_list ds) (sort_list-IsDescending ds)

abbrev pub limit_list {ℓ} : {D : Type ℓ} → ℕ → List D → List D
limit_list zero ds = ds
limit_list (suc n) ds = take (suc n) ds

abbrev pub memory_mongo : Mongo
memory_mongo = record {
  Collection = List;
  documents = λ ds. ds;
  find_one = first;
  find = filter;
  insert_one = λ d ds. ds ++ d ∷ [];
  insert_many = λ es ds. ds ++ es;
  update_one = update_first;
  update_many = λ p f ds. map (λ d. if p d then f d else d) ds;
  sort_descending = sort_list;
  limit = limit_list;
}

limit_list-take {ℓ} : {D : Type ℓ} (n : ℕ) (ds : List D) → n ≢ 0 → limit_list n ds ≡ take n ds
limit_list-take zero ds h = absurd (h refl)
limit_list-take (suc n) ds h = refl

pub memory_mongo-IsMongo : IsMongo memory_mongo
unfolding sort_list
memory_mongo-IsMongo = record {
  find_one_first = λ p c. refl;
  find_filter = λ p c. refl;
  documents-insert_one = λ d c. refl;
  documents-insert_many = λ ds c. refl;
  documents-update_one = λ p f c. refl;
  documents-update_many = λ p f c. refl;
  sort_same = sort_list-same;
  sort_ordered = sort_list-IsDescending;
  sort_one = λ key d. refl;
  limit_zero = λ ds. refl;
  limit_take = limit_list-take;
}

abbrev pub get_leaf : List (Bytes × Bytes) → Bytes → Bytes
get_leaf [] j = []
get_leaf ((k, v) ∷ t) j = let rest = get_leaf t j in ite (bytes_discrete j k) v rest

pub leaves_hex : List (Bytes × Bytes) → String
leaves_hex [] = ""
leaves_hex ((k, v) ∷ t) = hex (k ++ v)

abbrev pub memory_smt : Smt
memory_smt = record {
  SparseMerkleTree = List (Bytes × Bytes);
  empty = [];
  update = λ k v t. (k, v) ∷ t;
  get = get_leaf;
  root_as_hex = leaves_hex;
  prove = λ t k. record {
    sidenodes = [];
    non_membership_leafdata = none;
    sibling_data = some (get_leaf t k);
  };
}

pub memory_smt-IsSmt : IsSmt memory_smt
memory_smt-IsSmt = record { get-update = λ t k v j. refl }

abbrev pub zeros : ℕ → Bytes
zeros zero = []
zeros (suc n) = 0 ∷ zeros n

-- Every text is signed by the key that is its own signature.
abbrev pub memory_crypto : Crypto
memory_crypto = record {
  sha256 = λ msg. zeros 32;
  Signature = Bytes;
  PublicKey = Bytes;
  signature_of = λ bs. ok bs;
  public_key_of = λ bs. ok bs;
  verify_msg = λ key msg sig. ok (ite (bytes_discrete key sig) true false);
}

pub memory_crypto-IsCrypto : IsCrypto memory_crypto
memory_crypto-IsCrypto = record { digest_size = λ msg. refl; digest_bytes = λ msg. omega arith }
