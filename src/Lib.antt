-- ===== src/Lib.antt =====
-- AuditGuard, a market of smart contract audits. An orchestrator (orchestrator/src) takes bids for
-- an audit job, lets the chain select winners, collects their findings and settles the payment. Two
-- services (packages/static-analysis-service, packages/fuzzer-service) run analysis tools for the
-- agents. The events API (packages/events-api) takes the events that the parts report, and a
-- dashboard (packages/dashboard) keeps what it hears of all this in one store. The parts talk by
-- messages of a topic and by transactions of the chain.
--
-- What models what:
--   Dashboard: the store, packages/dashboard/src/store/index.js. `Dashboard.State` is its state,
--     `Feed`, `Auctions` and `Agents` hold one function for each action, named as the action is, and
--     `Dispatch` makes data of the actions. `AuctionType` is utils/auction-type.js beside the store.
--     The theorems are in `Treasury`, `Bounds`, `Dedup`, `Statuses` and `Canonical`.
--   Services: packages/static-analysis-service/src/queue.js (`StaticQueue`) and
--     packages/fuzzer-service/src/queue.js (`FuzzQueue`). Their common worker (`Worker`: submit,
--     start and finish are the links of the chain of promises) and their common loop over the tools
--     (`Tools`) are generic in the service: each queue gives a `Service`. The theorems are in
--     `Merge`, `Schedule`, `Rounds` and `Finished`.
--   EventsApi: `Auth` is packages/events-api/src/middleware/auth.js and `Validation`
--     packages/events-api/src/validation.js. The theorems are in `Accepted` and `Again`.
--   Orchestrator: `Roster` is orchestrator/src/roster.js, `WriteQueue` the queue of writes of
--     orchestrator/src/contract-client.js, and the others are handlers of
--     orchestrator/src/orchestrator.js: `Address`, `Settlement` and `Payout` settleAll and what
--     stands beside it, `Bids` handleBidSubmitted, `Readiness` and `Selection` the timers and
--     requests of winner selection, `Winners` its announcements, `TopUp` and `Donors` the account's
--     top-up, `Closing` closeExpiredAuction, `Reconcile` reconcileExpiredActiveAuctions, `Discovery`
--     and `Creation` handleDiscovery up to the job that it creates, `ActiveStatus` the check of the
--     invited agents, `Choosing`, `Selecting` and `SelectRun` selectWinnersOnChain with the scores
--     in `Doubles`, `Hydration` the job that it reads from the chain, `Rearm`
--     bootstrapWinnerSelectionFromActiveJobs, `Market` the data market and sub-auctions, `Pings` the
--     pings and `Errors` the classes of errors; each has its theorems in its child modules. `Lanes`
--     is what the queue of writes promises. The other theorems are in `Eligibility`, `Liveness`,
--     `SendOrder`, `Drained`, `Fairness`, `Shares`, `Payees`, `Payments`, `Settled`, `BidBook`,
--     `Selected`, `Requested`, `Fired`, `Fingerprint`, `Announced`, `Reserves` and `Filled`.
--   Agents: `JobLock` is agents/shared/job-lock.ts, as the steps of its calls; `Chain` and `Rising`
--     carry the theorems of `Exclusive` and `Progress`.
--   Prelude: tests, lists, texts and maps that the others share. The modules named Examples and
--     AuctionExamples apply the theorems to concrete inputs.
--
-- How: state is passed explicitly, and what a handler sends is a list of calls, in order. The clock,
-- the configuration, the chain's answers, the wallets, `ethers.isAddress`, the runners and the shell
-- are arguments; `none` or `false` is a call that throws. Amounts and times are natural numbers in
-- their smallest unit, but for the scores of bids, which are doubles. The loops recur on the lists
-- they walk, the loop of the write queue on the outcomes of its sends, of which one for each waiting
-- task is enough to empty it, and a retry loop on the attempts left, as many as the code allows.
-- Handlers that wait are taken as one piece, but for the runs of closing, the calls of the job lock
-- and the checks of a PONG, which interleave.
--
-- Not modelled: log lines, metrics, the database, the transport of messages, rendering, letters
-- outside ASCII in lower case, and a `catch` that is never entered; the other handlers of the
-- orchestrator, the routes and the database of the events API, the agents with the rest of their
-- shared code, and the contracts.
pub mod Prelude
pub mod Agents
pub mod Dashboard
pub mod EventsApi
pub mod Orchestrator
pub mod Services
