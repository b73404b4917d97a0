-- ===== src/Lib.antt =====
-- Verification of the pearl-infra services: the settlement worker of OTC trades, the Pearl block
-- indexer with its funding scanner, the relayer of the Pearl bridge, the orders and trades of the
-- OTC API, and the transactions of Pearl escrows.
--
-- An OTC trade exchanges PRL, held in an escrow on Pearl, for USDC, held in an escrow contract on
-- Base. The settlement worker reads both legs, decides on each open trade, writes the decision
-- once and prepares the release or the refund. The indexer follows the Pearl chain block by block.
-- The bridge mints wrapped PRL against deposits and releases PRL for exits.
--
-- Files and the code they are about:
--   Prelude: what the others share. Tests on native numbers, string equality, JavaScript's
--     arrays and maps, sorting, decimal digits, timestamps, and series of early returns.
--   Sdk: packages/pearl-sdk/src. Trade and States are otc.ts (TradeState, ALLOWED_TRANSITIONS,
--     canTransitionTrade, tradeStateIsTerminal), Amounts is amounts.ts (parseDecimalToUnits,
--     formatUnitsToDecimal). Phases and RoundTrip hold proofs.
--   Usdc: packages/usdc-escrow-client/src. Types is types.ts, Events is events.ts
--     (applyUsdcEscrowTradeEvent, normalizeUsdcEscrowTradeEvents), Repository its in-memory
--     repository. Latest, Inserted and Ingest hold proofs.
--   Settlement: services/settlement-worker/src. Types is types.ts, Decision is decision-engine.ts
--     (createSettlementDecisionRecord and what it calls), Loop is the worker and the in-memory
--     adapters of settlement-loop.ts, BaseState its baseEscrowEventStateFromUsdcTradeState.
--     Release, Refund, Once and BaseTerms hold proofs.
--   Indexer: services/pearl-indexer/src. Blocks is block-poller.ts, Sink is postgres-sink.ts, with
--     the blocks table as a list of rows and one function for each SQL statement. Linked and
--     Polls hold proofs.
--   Bridge: services/bridge-service/src. Types is types.ts, Exits the in-memory repository of
--     repository.ts, Quorum is attestations.ts (evaluateBridgeAttestationQuorum), Blockers and
--     Policy are relayer-policy.ts (getDepositBlocker, decideDepositMint, decideExitRelease), Spends
--     is reserve-spend-matcher.ts. Exclusive, Keeps, Minting, Releasing, Approved and Matched hold
--     proofs.
--   Watch: services/pearl-indexer/src. Types is watched-address-types.ts, Repository is
--     MemoryWatchedAddressRepository of watched-address-repository.ts, Funding and SpendKinds are
--     the classifications of funding-scanner.ts (classifyFunding, classifySpend), Scanner its
--     FundingScannerSink around the sink of Indexer. Tidy, Wells, Counted, Confirmed, Detached,
--     Verdicts, Terms and Replay hold proofs.
--   Otc: services/otc-api/src. Types is types.ts, Orders and Trades are parts of
--     InMemoryOtcRepository of repository.ts, with transitionTrade of trade-service.ts; Sweeps is
--     assertOrderFillable, initiateOrderSweep, requestPrefundRefund and the signing of sweeps of
--     trade-service.ts, Quotes its calculateQuoteAmounts, createTradeDeadlines and
--     getDueDeadlineWarnings. Units, Calls, Accounts, Fills, Fillable and Reached hold proofs.
--   Escrow: packages/pearl-escrow/src. Types is types.ts, Funding is funding.ts
--     (matchPearlEscrowFundingOutput), UnsignedTx is unsigned-tx.ts (createPearlEscrowUnsignedTx),
--     SignerRequest is createPearlEscrowSignerRequest of broadcast.ts, Texts the tests on texts that
--     each of these has a copy of. Paying, Asking and Matching hold proofs.
--   The file Tests of each part holds concrete runs.
--
-- How the model is built. A class with private fields is a record that its methods take and
-- return. `async` functions are their sequences of steps; the worker and the poller are single
-- loops and nothing runs beside them. A thrown error is a value: `none`, or a constructor of the
-- function's result. Numbers are natural numbers, as the heights, confirmations and amounts of
-- the program are; BigInt has no bound. An ISO timestamp that is compared is what `getTime` gives,
-- with NaN as `none`; one that is only stored or sorted stays a string. A string that may be
-- undefined is an Option, with the truthiness of the empty string written out where it is tested.
-- In the settlement loop trades are objects that the trade source mutates: the model looks a
-- trade up by its id, so that the loop sees what was written to it. An amount of the OTC API is a
-- text, the list of its code points. Where the funding scanner throws, the state keeps what was
-- written before.
--
-- Bounds and fuel. Decimal digits are computed on fuel that is the number plus one, of which they
-- use less. Blocks are polled from a height to the tip by recursion on their number.
--
-- Parameters. SHA-256 with its hexadecimal digest, canonical JSON and JSON.stringify; the Pearl
-- and Base readers of the worker, functions of the trade; the node of the indexer, which serves
-- one block per height; the reading of a date in a watch's metadata; the signer, the broadcaster
-- and the refund builder of sweeps; of bitcoinjs-lib, toOutputScript, the default sequence and the
-- transaction in hexadecimal; `Number(text)` on the index of an outpoint. `localeCompare` on timestamps of one format is the order of code units.
--
-- Not modelled: HTTP, PostgreSQL and RPC adapters, the JSON-file repositories, signing and
-- broadcasting, the web application, the Solidity contracts; of the bridge, the canonical events
-- and the reconciliation; of the OTC API, users, wallets, notifications, points, escrow
-- allocations, proofs and the observer of prefunds; of Pearl escrows, building a package, script
-- paths, the boundary to the signer and broadcast attempts. They are adapters to other systems, or are
-- left for later.
pub mod Prelude
pub mod Sdk
pub mod Usdc
pub mod Settlement
pub mod Indexer
pub mod Bridge
pub mod Watch
pub mod Otc
pub mod Escrow
