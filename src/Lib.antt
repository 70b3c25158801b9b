-- ===== src/Lib.antt =====
-- Verification library of the XGT node: the parts of it that keep the state of the chain.
--
-- The node receives blocks. The fork database (libraries/chain/fork_database.cpp) keeps the recent
-- ones as a tree. The chain database (libraries/chain/database.cpp) follows its highest branch: it
-- evaluates blocks on the state, each in an undo session of chainbase, and goes back by undoing.
-- Evaluating a block checks signatures (libraries/protocol/sign_state.cpp) and runs an evaluator for
-- each operation (libraries/chain/xgt_evaluator.cpp), which changes balances in the ledger.
--
-- - Base: tests on numbers, signed integers and the checked int64_t of libraries/fc/include/fc/safe.hpp,
--   ordered maps, tables of objects. They are what the other parts are written with.
-- - Chainbase: class generic_index of libraries/chainbase/include/chainbase/chainbase.hpp. The undo
--   stack of one index, from create, modify and remove to undo, squash and commit. Spec is the
--   abstract index, a table with a stack of whole tables.
-- - ForkDatabase: fork_database.cpp, every operation. Items have addresses, so that the weak pointer
--   from a block to the one before it can find nothing once that item is gone. Branches has the
--   walks along the pointers.
-- - Chain: database.cpp, _push_block, pop_block, the switch of forks and migrate_irreversible_state,
--   over an interface, Application, that evaluates a block on a state and can fail. An undo session
--   is the state that it restores.
-- - Protocol: authorities, the recursive check of sign_state.cpp, and Verify, the function
--   verify_authority of libraries/protocol/include/xgt/protocol/transaction_util.hpp, over an interface,
--   Requirements, that says what an operation requires. AssetSymbol has asset numbers and NAIs,
--   from libraries/protocol/asset.cpp.
-- - Ledger: balances of database.cpp, transfers and escrow of xgt_evaluator.cpp with their validate
--   functions of libraries/protocol/xgt_operations.cpp. Operations puts them together; Signers has
--   what they require of verify_authority.
-- - Database: the objects that blocks and transactions change: properties, witnesses, the index of
--   known transactions, with the ledger.
-- - Mining: proof of work: pow_evaluator of xgt_evaluator.cpp and the reward of a block with its
--   halvings. Emission sums the rewards.
-- - Blocks: _apply_block, _apply_transaction and what they call in database.cpp. Setting holds what
--   they ask of cryptography, of floats, and of the checks on signatures.
-- - Pending: transactions that wait for a block: push_transaction of database.cpp, and
--   pending_transactions_restorer of libraries/chain/include/xgt/chain/db_with.hpp.
-- - Producer: apply_pending_transactions of libraries/plugins/witness/block_producer.cpp, which fills
--   a new block. Sizes and the evaluators of automated actions are parameters.
-- - Node: the chain with _apply_block as its application: pushes, switches and evaluation together.
-- - Sync: get_block_ids and get_blockchain_synopsis of libraries/plugins/p2p/p2p_plugin.cpp, which
--   tell peers of the chain, over a View of the chain database. Joins says where a synopsis meets it.
-- - Signing: the checks on signatures of _apply_transaction, which fill what Setting leaves open, with
--   verify_authority of Protocol.
-- - Resources: resource dynamics, libraries/chain/util/rd.cpp. Equilibrium has the pool where decay and
--   budget are in balance; Approach, the way to it.
--
-- An exception is `none`, or an outcome where the state that it leaves matters. Ids, names, keys,
-- asset numbers and times are natural numbers. Amounts are integers whose checked operators fail
-- out of 64 bits; block numbers wrap round at 32 bits.
--
-- Loops that follow pointers take fuel. The loop over unlinked blocks takes one out in each round,
-- so their number is enough. Walks along the links of the fork database, and the pops of the chain,
-- go to a lower block number in each step, so the number is enough. The recursion of sign_state is
-- on the levels that max_recursion leaves. A synopsis takes at most as many rounds as
-- there are numbers up to the highest, as long as block numbers do not wrap round.
--
-- Not modelled: cryptography and serialisation, which need fc and its vendored libraries; files,
-- threads and the network; the disk container mira; plugins and APIs, which read the state; hardforks,
-- XTT token operations and account recovery.
pub mod Base
pub mod Chainbase
pub mod Protocol
pub mod Ledger
pub mod ForkDatabase
pub mod Chain
pub mod Database
pub mod Mining
pub mod Blocks
pub mod Pending
pub mod Producer
pub mod Resources
pub mod Node
pub mod Sync
pub mod Signing
