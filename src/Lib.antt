-- ===== src/Lib.antt =====
-- The core logic of railgun-go, a client of the RAILGUN privacy system: a wallet scans the logs of a
-- contract, keeps the commitments that it finds as leaves of Merkle trees, and selects from the UTXOs
-- that it owns those that pay for a transaction.
--
-- The parts, and the files that model them:
--   Common         what all parts share: Go results with errors, maps with integer keys, big integers,
--                  strings as lists of bytes.
--   Crypto/Bytes   pkg/crypto/bytes.go: hex strings and big integers.
--   Merkle         pkg/merkletree/merkletree.go: the root that a proof leads to, and its verification.
--   UtxoTree       pkg/utxotree/store.go: the levels of a tree, proofs, and the memory store
--                  (UtxoTree/Store). It hashes as Merkle does, and Merkle verifies its proofs.
--   Events         pkg/events: the accumulation of V2 logs (Events), the scan of a range of blocks in
--                  chunks (Events/Scanner) and from a checkpoint (Events/Checkpoint), which a memory
--                  store or a file (Events/Checkpoint/Files) keeps.
--   Transaction    pkg/transaction/solutions.go: the choice of UTXOs (Transaction/Solutions) and the
--                  groups that pay for the outputs (Transaction/Spending).
--   UtxoTree/Files, UtxoTree/Index
--                  pkg/utxotree/store.go: the file store, and the leaves of commitment events.
--   Txid           pkg/txid/txid.go: transaction ids and global positions; pkg/txid/merkletree.go: the
--                  next position in the txid trees, the leaf of a transaction (Txid/Append) and the memory
--                  store (Txid/Trees); pkg/txid/store.go: the transactions (Txid/Transactions).
--   Chain          pkg/chain/chain.go: network ids and the list of chains that support V3.
--   Broadcaster    pkg/broadcaster/address_filter.go: the allowlist and the blocklist; util.go: versions
--                  (Broadcaster/Version); fee_cache.go: the quotes (Broadcaster/Fees); search.go: the
--                  choice of one (Broadcaster/Search), which the filter and the quotes feed.
--   Poi            pkg/poi/manager.go: the bucket of a UTXO, and the lists that need proofs
--                  (Poi/Manager/Submit). A map of statuses is a function of the key.
--   Wallet         pkg/wallet: the memory state store (Wallet/State) and balances by token, bucket and
--                  tree (Wallet/Balances), which ask the POI manager for the bucket of each UTXO; the events
--                  of spent commitments (Wallet/SpentEvents); the rollback of all stores
--                  (Wallet/Rollback) and the Merkle proofs of UTXOs (Wallet/Proofs).
--
-- Names are those of the Go code in this language's spelling: UpsertLeaf is upsert_leaf. A method of a
-- store takes the store as an argument, none for a nil receiver, and returns the new store; a lock is
-- held for the whole of each method, so that methods are the steps of the model. A context is the
-- error that it returns, if any. A result and an error are a Result.
--
-- Numbers. Block numbers, trees and indices are uint64 and wrap where the code adds to them. A
-- math/big integer is ℤ, and an amount of a token is a natural number: the values of notes are not
-- negative.
--
-- Loops. The scan of a range runs on fuel, one unit for each chunk, and the number of its blocks is
-- enough; the rounds of the selection in one tree run on fuel, and more than the amount is enough.
-- Other loops are recursion on a list or on the depth of the tree.
--
-- Parameters. The Poseidon hash is a function of a list of integers, and the theorems that need it
-- assume that two integers hash into the field. The decoders of single logs and the topics of the
-- events are a record, and a node's answers are a function; the theorems on whole scans assume that
-- the node returns the logs of a range in order, up to the end of the range that is scanned. Token data, which the selection copies, is a type.
-- The writing of JSON to a file is a codec, and the theorems on the file stores assume that it
-- reads back what it wrote of strings that are valid UTF-8, for which a test is another parameter.
-- That a store of a wallet has a `RollbackToBlock` is a flag. A reliability of a broadcaster, a float64, is of a type with an order; the time
-- and random numbers are arguments.
--
-- On an error of a rollback or a scan that works on several stores, those that it reached before the
-- error stay changed; the model returns the error alone.
--
-- Not modelled: the stores in databases, the V3 twins of the event code, ciphers and keys,
-- note encryption, ABI encoding, the prover, the clients of HTTP services and the broadcaster network,
-- which are I/O or calls of third-party packages; nor addresses, the requests of transactions and
-- the import of events into the wallet.
pub mod Common
pub mod Crypto
pub mod Merkle
pub mod UtxoTree
pub mod Events
pub mod Chain
pub mod Broadcaster
pub mod Poi
pub mod Wallet
pub mod Transaction
pub mod Txid
