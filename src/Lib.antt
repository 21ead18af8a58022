-- ===== src/Lib.antt =====
-- Verification of the custody core of hexstody: the event-sourced state that hexstody-db keeps.
--
-- The program is a custody of bitcoin, ether and tokens. Its web services (hexstody-public for
-- users, hexstody-operator for operators, hexstody-btc and hexstody-eth for the chains) send state
-- updates to one worker. The worker applies each update to a copy of the state, inserts it as a row
-- of the database, and then publishes the copy. After a restart the state is collected again from
-- the rows, back to the last snapshot. What a user owns, who has confirmed a withdrawal, and what
-- the exchange holds are all functions of this state.
--
-- Files, with the code that they model:
--   Prelude and its children    what the modules share: keys, integers, machine words, hash maps
--   Domain/Currency             hexstody-api/src/domain/currency.rs
--   Domain/Profile              hexstody-api/src/domain/mod.rs
--   Domain/Types                the types of hexstody-api/src/types.rs that the state contains
--   Update/*                    hexstody-db/src/update/*.rs, the bodies of updates; Update/Btc also
--                               hexstody-btc-api/src/events.rs
--   State/Transaction           hexstody-db/src/state/transaction.rs
--   State/Withdraw              hexstody-db/src/state/withdraw.rs
--   State/Exchange              hexstody-db/src/state/exchange.rs
--   State/User                  hexstody-db/src/state/user.rs
--   State/Core                  the record `State`, `StateUpdateErr` and the look-ups of
--                               hexstody-db/src/state/mod.rs, with network.rs and btc.rs
--   State/Accounts, Withdrawals, Limits, Orders, Chain
--                               the handlers of hexstody-db/src/state/mod.rs, one function each,
--                               under its name
--   State/Apply                 `apply_update` and `collect`
--   Db/Query, Db/Worker         hexstody-db/src/queries.rs and `update_worker` of lib.rs
--   Update/Tag, Update/Row      the tags of hexstody-db/src/update/mod.rs and the JSON of a body
--   Db/Rows                     `insert_update` and `query_updates` of queries.rs on rows of the table
--   Update/Channel              the channel of updates to the worker
--   Domain/Requests, Names      the messages and texts of hexstody-api/src/types.rs and currency.rs
--                               that the services below use
--   Domain/Error                hexstody-api/src/error.rs
--   Signed                      hexstody-sig/src/lib.rs
--   Operator/*                  hexstody-operator/src/api: helpers.rs is Operator, the decisions of
--                               mod.rs are Operator/Decisions, its invites Operator/Invites, what it
--                               lists Operator/Queries, and the address of the exchange
--                               Operator/Deposit
--   Public/*                    hexstody-public/src/api: auth.rs, profile.rs and wallet.rs, of
--                               which Public/Deposit has the deposit addresses and
--                               Public/Balance the balances
--   Btc/Withdraw, Btc/Misc      hexstody-btc/src/api/public.rs
--   Btc/Scan, Btc/Scan/Cold     hexstody-btc/src/worker.rs and state.rs
--   Hot                         hexstody-hot/src/worker.rs
--   Runtime                     hexstody-runtime-db/src/lib.rs
--   Tests/*                     the theorems at concrete inputs
-- The children of a module hold its proofs: State/Accounts/Invites on sign-ups,
-- State/Withdrawals/Counting and Outcome on the decisions of operators, State/User/Net and
-- Balance on balances, State/Apply/Atomic and Replay on failing updates and chains of updates,
-- State/Apply/Kept on what every user and every account keeps, Db/Query/Sound and
-- Db/Worker/Recovery on restarts, Operator/Guarded on signatures, Operator/Queries/Covered and
-- Listed on pending changes of limits, Operator/Deposit/Reserved on the name of the exchange,
-- Public/Balance/Listed on balances, Db/Query/Order on the order of rows, Public/Accepted on
-- requests that the state accepts, Btc/Withdraw/Tally on the count of signatures,
-- Btc/Scan/Delivery on polls, Runtime/Rates on rates. Hot/Paid and Hot/Seen join the hot wallet
-- with the adapter: what the adapter checks before it pays, and how a payment seen becomes an
-- update.
--
-- How the code is modelled:
--   - A handler takes the state and gives a result and the state that it leaves, after an error
--     too, so that what an error leaves behind is visible.
--   - A hash map is an association list, iterated in the order of the list, which is one order
--     that the hash map may show.
--   - A `u64`, `i64` or `i16` wraps around explicitly, as in a release build. Theorems that need
--     exact sums assume that the amounts fit into an `i64` or `u64`, and a count of decisions
--     into an `i16`. No fuel is used, since every loop is over a list.
--   - Ids, keys, signatures and times, and addresses and transaction ids of the bitcoin crate, are
--     numbers: the code only compares, stores and prints them, and printing is the parameter
--     `Bitcoin` of the model. The id and the time that a step draws from outside are its `Draw`.
--   - For the worker a row of the database is the update that it decodes to, and whether an
--     insertion succeeds is an input of its round. In Db/Rows a row has its tag, version and
--     JSON body. A table is its rows in the order of their insertion; a query sorts them by
--     their times, newest first, and rows of the same time, which the database may give in any
--     order, by their insertion. `query_updates` and `query_state` take the rows in the order
--     that the query gives. JSON is the parameter `Serde`, a codec for each payload that reads
--     back what it writes.
--   - A request of a user or an operator reads the state, answers, and leaves the channel with
--     the updates that it has sent. A panic (`unwrap`, an index) is `none`. The ids that a loop
--     draws are a list.
--   - What the crates do is a parameter: the check of a signature (`Verifier`), the bitcoin node
--     (`Node`), the clients of the adapters (`Clients`, `EthClient`), password hashes
--     (`Bcrypt`), the rates (`TickerClient`), the JSON and date texts, and lower case.
--   - The scan of the bitcoin adapter is a round of its loop, and a run is a sequence of rounds
--     and polls in any order, since both hold the lock of its state while they run.
--
-- Not modelled: the serving of HTTP, the rendering of pages and the start-up of the services; the
-- ethereum adapter, which is calls of web3 and SQL; the clients of the services and of the rate
-- provider, which only send HTTP requests; the public endpoint for history and the one that asks a
-- price service for the fee on ethereum; the endpoints of the bitcoin adapter for a regtest node;
-- scheduled jobs; SQL; logging; the harness of the tests; and the parts of the types that only
-- these use.
pub mod Prelude
pub mod Domain
pub mod Signed
pub mod Btc
pub mod Operator
pub mod Public
pub mod Hot
pub mod Runtime
pub mod Update
pub mod State
pub mod Db
pub mod Tests
