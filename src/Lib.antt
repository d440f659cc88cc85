-- ===== src/Lib.antt =====
-- The sequencer of the ZKP rollup (sequencer/): the Python service that takes signed transactions,
-- keeps accounts in MongoDB and a sparse Merkle tree, and forms L2 blocks.
--
-- A submission goes through `handel_transaction_submission`: it is made a Transaction, its
-- signature is checked, it is stored as pending or invalid, and a counter asks for a block each
-- fifty. The queue of causes feeds `batch_queue_consumer`, whose rounds (`form_new_L2_block`) take
-- a batch of pending transactions, apply each to the tree (a deposit writes a leaf, a transfer
-- two), hash the batch and write a block that names its predecessor.
--
-- Base: tests, equality, lists and integers that the other files share. Python: exceptions
-- (Result), methods that change state and may raise (Exec), byte strings (Bytes). Services: what
-- the sequencer calls and the repository does not hold, as records of operations that every
-- definition takes, with their documented behaviour as a second record; Services/Memory gives
-- operations that behave so. State: the collections, the tree and the fields of the controllers,
-- in one record World.
--
-- Types: sequencer/src/Types.py. Utils: sequencer/src/utils.py. MerkleTree:
-- sequencer/src/MerkleTreeController.py, with the encoding of a leaf in MerkleTree/Leaf and the
-- search of an entry in MerkleTree/Index. Validator: sequencer/src/TransactionValidator.py, with
-- the JSON text of a body in Validator/Json. MemPool: sequencer/src/MemPool.py. Block:
-- sequencer/src/BlockController.py, with its hashes in Block/Hash. Setup:
-- sequencer/src/SetupService.py. ChainListener: sequencer/src/ChainListener.py, with its loop in
-- ChainListener/Loop. MongoClient: sequencer/src/AsyncMongoClient.py. Server: the routes of
-- sequencer/main.py, in Server/Start how it and the controllers start, in Server/Reachable its
-- tasks as whole steps, and in Server/Interleaved as steps from await to await: a submission is
-- stored before it is counted, and Block/Steps cuts a round of the consumer after its batch is
-- found, after it is marked and after each transaction. Client: client/chain_client.py, with the
-- task of a user in Client/User, which calls the service through an interface that the routes
-- fill, in Client/Settled what becomes of its payment, in Client/Deposits the deposits of its
-- accounts on the chain, and in Client/Body the hash of a body. Block/Typed says which shapes the
-- stored documents have. Ledger: an abstract ledger of balances and nonces by key, payments
-- between keys and their settlement in no order (a quotient of lists), and in Ledger/Settle a
-- round of the consumer held against it. TestBadge: scripts/create_test_badge.py, its accounts and
-- tree in TestBadge, its transactions and its badge in TestBadge/Script, its `main` in
-- TestBadge/Main; random keys and pairs are arguments. Functions keep their names; a method is a
-- function of the state that returns a result and the next state. What was written before an
-- exception stays written.
--
-- Random identifiers and times are arguments, in the order in which the source draws them. The
-- amount of a transaction is a float that holds a whole number: Python/Float rounds sums and
-- differences to 53 bits, with fuel for 1024 bits more, and theorems that count on exact sums ask
-- for balances below 2 ^ 53. A leaf has eight bytes for each value. An enumeration member and its
-- stored text are one. The writing of a block is not cut at its awaits, as no other task reads or
-- writes the blocks and their pointer; the application of one transaction and the recording of one
-- deposit are taken to be whole. The loop for deposits has no end, so the number of its polls is
-- an argument, and an event comes with the time and the identifier that are drawn for it. Logging
-- and the sessions of the driver are not modelled, nor are lost database calls. The value of the
-- status route passes a check of the framework, which is a parameter; that it refuses a value
-- without a required field is a hypothesis. Validator/Json writes the digits of n on fuel n + 1,
-- and a number has fewer digits than that.
--
-- Not modelled: the Solidity contracts, the Rust prover and its guest, the web page; the choice of
-- the random pairs and the reading of the JSON files, whose results are arguments. Nor is
-- `get_leaf_data_` of sequencer/src/BlockController.py, which reads the users, returns nothing and
-- is not called.
pub mod Base
pub mod Python
pub mod Types
pub mod Services
pub mod Utils
pub mod State
pub mod MerkleTree
pub mod Validator
pub mod MemPool
pub mod Block
pub mod Setup
pub mod Ledger
pub mod MongoClient
pub mod ChainListener
pub mod Server
pub mod Client
pub mod TestBadge
pub mod Tests
