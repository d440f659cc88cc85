-- ===== src/TestBadge/Created.antt =====
-- The accounts that the script draws, and `main` on them.
use mathlib.Core.Option
use zkp_rollup.Base.{
  map, ℕ, zero, suc, ◌<◌, ◌≤◌, ◌≡◌, ◌≢◌, ◌∙◌, refl, ap, sym, List, [], ◌∷◌, Option, none, some,
  length, All, get_elem?, arith,
}
use mathlib.Core.Option.{some-injective, none-ne-some}
use zkp_rollup.Base.Int.{pos}
use zkp_rollup.Python.Result.{ok}
use zkp_rollup.Python.Bytes.{Bytes}
use zkp_rollup.Utils.{hex_to_bytes, bytes_to_hex}
use zkp_rollup.Utils.Laws.{hex_to_bytes-bytes_to_hex}
use zkp_rollup.Services.{Services, IsServices}
use zkp_rollup.Services.Crypto.{Crypto}
use zkp_rollup.Client.{Signer, IsSigner}
use zkp_rollup.TestBadge.{AccountInformation, Book}
use zkp_rollup.TestBadge.Tree.{Each, HasRoom}
use zkp_rollup.TestBadge.Script.{Badge, AccountView, view_of, create_account_information}
use zkp_rollup.TestBadge.Main.{main}
use zkp_rollup.TestBadge.Run.{CanSign, InRange, settled}
use zkp_rollup.TestBadge.Run.Step.{KeysApart, IsLeaf}
use zkp_rollup.TestBadge.Whole.{make_badge-IsSettled}

All-Each :
    (P : AccountInformation → Type 0) (accs : List AccountInformation) → Each P accs → All P accs
All-Each P [] h = tt
All-Each P (acc ∷ accs) h = (h 0 acc refl, All-Each P accs (λ k a found. h (suc k) a found))

get_elem?-map :
    (g : AccountInformation → AccountView) (accs : List AccountInformation) (k : ℕ)
    → get_elem? (map g accs) k ≡ Option.map g (get_elem? accs k)
get_elem?-map g [] k = refl
get_elem?-map g (acc ∷ accs) zero = refl
get_elem?-map g (acc ∷ accs) (suc k) = get_elem?-map g accs k

map_view_twice :
    (f : AccountInformation → AccountInformation) (o : Option AccountInformation)
    → Option.map view_of (Option.map f o) ≡ Option.map (λ a. view_of (f a)) o
map_view_twice f none = refl
map_view_twice f (some acc) = refl

module _ {c : Crypto} (s : Signer c) where
  -- Bytes that are a private key.
  pub record IsDrawn (drawn : Bytes) : Type 0 where
    pub private_key : s.PrivateKey
    pub made : s.private_key_of drawn ≡ ok private_key
    pub is_bytes : All (λ b. b < 256) drawn

  -- The key bytes drawn at different places have different public keys.
  abbrev pub PublicApart : List Bytes → Type 0
  PublicApart drawn =
      (i j : ℕ) (a b : Bytes) (x y : s.PrivateKey)
      → get_elem? drawn i ≡ some a
      → get_elem? drawn j ≡ some b
      → s.private_key_of a ≡ ok x
      → s.private_key_of b ≡ ok y
      → i ≢ j
      → s.key_bytes (s.public_key x) ≢ s.key_bytes (s.public_key y)

  record IsCreated (drawn : List Bytes) (k : ℕ) (acc : AccountInformation) : Type 0 where
    bytes : Bytes
    from : get_elem? drawn k ≡ some bytes
    own : IsDrawn bytes
    private : acc.private_key ≡ bytes_to_hex bytes
    public : acc.public_key ≡ bytes_to_hex (s.key_bytes (s.public_key own.private_key))
    balance : acc.balance ≡ pos 1000
    nonce : acc.nonce ≡ pos 0

  later :
      (d : Bytes) (drawn : List Bytes) (k : ℕ) (acc : AccountInformation)
      → IsCreated drawn k acc
      → IsCreated (d ∷ drawn) (suc k) acc
  later d drawn k acc c = record {
    bytes = c.bytes;
    from = c.from;
    own = c.own;
    private = c.private;
    public = c.public;
    balance = c.balance;
    nonce = c.nonce;
  }

  abbrev drawn_account : Bytes → s.PrivateKey → AccountInformation
  drawn_account bytes key = record {
    private_key = bytes_to_hex bytes;
    public_key = bytes_to_hex (s.key_bytes (s.public_key key));
    balance = pos 1000;
    nonce = pos 0;
  }

module _ (v : Services) (s : Signer v.crypto) where
  create_account_information-IsCreated :
      (drawn : List Bytes)
      → All (IsDrawn s) drawn
      → (accs : List AccountInformation) × (create_account_information v s drawn ≡ ok accs)
        × (length accs ≡ length drawn)
        × ((k : ℕ) (acc : AccountInformation)
            → get_elem? accs k ≡ some acc
            → IsCreated s drawn k acc)
  unfolding create_account_information
  create_account_information-IsCreated [] h =
      ([], refl, refl, λ k acc found. absurd (none-ne-some acc found))
  create_account_information-IsCreated (d ∷ drawn) (h, hs) =
      let (accs, made, size, each) = create_account_information-IsCreated drawn hs in
      (drawn_account s d h.private_key ∷ accs, rw h.made (rw made), ap suc size, first accs each)
    where
      first :
          (accs : List AccountInformation)
          → ((k : ℕ) (acc : AccountInformation)
              → get_elem? accs k ≡ some acc
              → IsCreated s drawn k acc)
          → (k : ℕ) (acc : AccountInformation)
          → get_elem? (drawn_account s d h.private_key ∷ accs) k ≡ some acc
          → IsCreated s (d ∷ drawn) k acc
      first accs each zero acc found =
          let same = some-injective (drawn_account s d h.private_key) acc found in
          rw (sym same) (record {
            bytes = d;
            from = refl;
            own = h;
            private = refl;
            public = refl;
            balance = refl;
            nonce = refl;
          })
      first accs each (suc k) acc found = later s d drawn k acc (each k acc found)

  -- What `main` needs of the accounts holds of those that are created.
  module _ (signer : IsSigner s) (drawn : List Bytes) (apart : PublicApart s drawn) (m : ℕ)
      (few : m ≤ 1000) (accs : List AccountInformation)
      (each : (k : ℕ) (acc : AccountInformation)
        → get_elem? accs k ≡ some acc
        → IsCreated s drawn k acc) where
    public_hex :
        (acc : AccountInformation) (key : s.PrivateKey)
        → acc.public_key ≡ bytes_to_hex (s.key_bytes (s.public_key key))
        → hex_to_bytes acc.public_key ≡ ok (s.key_bytes (s.public_key key))
    public_hex acc key h =
        let bytes = s.key_bytes (s.public_key key) in
        ap hex_to_bytes h ∙ hex_to_bytes-bytes_to_hex bytes (signer.key_is_bytes (s.public_key key))

    ok_inj : {a b : Bytes} → ok a ≡ ok b → a ≡ b
    ok_inj h = cc

    created-HasRoom : Each (HasRoom m) accs
    created-HasRoom k acc found =
        let c = each k acc found in
        record {
          b = 1000;
          n = 0;
          balance = c.balance;
          nonce = c.nonce;
          enough = few;
          small = omega (arith, few);
          few = omega (arith, few);
          key = s.key_bytes (s.public_key c.own.private_key);
          hex = public_hex acc c.own.private_key c.public;
        }

    created-CanSign : Each (CanSign v s) accs
    created-CanSign k acc found =
        let c = each k acc found in
        record {
          key_bytes = c.bytes;
          private_key = c.own.private_key;
          hex = ap hex_to_bytes c.private ∙ hex_to_bytes-bytes_to_hex c.bytes c.own.is_bytes;
          signs = c.own.made;
        }

    created-KeysApart : KeysApart accs
    created-KeysApart i j a b fa fb ne e =
        let x = each i a fa in
        let y = each j b fb in
        apart i j x.bytes y.bytes x.own.private_key y.own.private_key x.from y.from x.own.made
          y.own.made ne
          (ok_inj (
            sym (public_hex a x.own.private_key x.public)
            ∙ e
            ∙ public_hex b y.own.private_key y.public))

  -- The script, when the bytes that it draws are private keys with different public keys, when its
  -- pairs are indices of accounts, and there are at most 1000 of them: it creates an account for each
  -- key and returns. The badge shows each account with what it had, less 1 for each time it pays, plus
  -- 1 for each time it is paid, and as many nonces as it pays; and it holds the root of a tree in which
  -- the leaf of each account is its encoding.
  pub main-settled :
      (lawful : IsServices v) (signer : IsSigner s) (drawn : List Bytes) (pairs : List (ℕ × ℕ))
      (b : Book v)
      → All (IsDrawn s) drawn
      → PublicApart s drawn
      → InRange v s (length drawn) pairs
      → length pairs ≤ 1000
      → (accounts : List AccountInformation) × (badge : Badge) × (new : Book v)
        × (create_account_information v s drawn ≡ ok accounts)
        × (length accounts ≡ length drawn)
        × (main v s drawn pairs b ≡ (ok badge, new))
        × ((k : ℕ)
            → get_elem? badge.leaf_data k
              ≡ Option.map (λ acc. view_of (settled pairs k acc)) (get_elem? accounts k))
        × All (IsLeaf v new.tree) new.account_information
        × (badge.new_merkle_root ≡ v.smt.root_as_hex new.tree)
  unfolding main
  main-settled lawful signer drawn pairs b keys apart range few =
      let (accounts, made, size, each) = create_account_information-IsCreated drawn keys in
      let (badge, new, run, ends, leaves, views, root) =
        make_badge-IsSettled v lawful s accounts pairs (rw size range)
          (created-KeysApart signer drawn apart (length pairs) few accounts each)
          (created-HasRoom signer drawn apart (length pairs) few accounts each)
          (created-CanSign signer drawn apart (length pairs) few accounts each) in
      (
        accounts,
        badge,
        new,
        made,
        size,
        rw made run,
        λ k.
            ap (λ l. get_elem? l k) views
            ∙ get_elem?-map view_of new.account_information k
            ∙ ap (Option.map view_of) (ends k)
            ∙ map_view_twice (settled pairs k) (get_elem? accounts k),
        All-Each (IsLeaf v new.tree) new.account_information leaves,
        root,
      )
