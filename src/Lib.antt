-- ===== src/Lib.antt =====
-- payments-engine: accounts, a double-entry ledger, and transfers between accounts.
--
-- A transfer is a request to move an amount from one account to another in one currency. The service
-- (internal/transaction/service.go) reads and checks both accounts and the clearing account, inserts a
-- row for the transfer, and posts two journal entries in one database transaction: source to clearing
-- and clearing to destination. internal/ledger checks that an entry is balanced, locks its accounts,
-- computes what the entry does to each of them and refuses one that would fall below zero. An
-- idempotency store (pkg/idempotency, Redis) and the unique key of the table keep a request from being
-- carried out twice, and an audit trail (internal/audit) is written on the side. Once a day
-- internal/settlement nets the settled transfers and marks them as reconciled. cmd/server serves all of
-- this over HTTP: a logging middleware (api/middleware) around the handlers of api/handler, which call
-- the services and write the records of api/dto; cmd/seed inserts the first chart of accounts.
--
-- The files:
--   Base, Base/*        Booleans and tests on numbers, lists, texts, signed integers.
--   Error               the sentinel errors of all packages, %w wrapping and errors.Is.
--   Exec, Exec/*        code that reads and writes a state and may return an error: `pure`, `raise`,
--                       `try` (if err != nil with code after it), `within` (fmt.Errorf with %w); rules
--                       for invariants (Keeps), for successful runs (Success) and for both ends (Ends).
--   Decimal             what the code relies on of shopspring/decimal and of NUMERIC(18, 4) columns, as
--                       an interface of operations and laws; Decimal/Scaled fills it with multiples of
--                       0.00001.
--   Money, Money/Laws   pkg/money/money.go.
--   Account             the classes, states and rows of internal/account/account.go and of
--                       AccountSnapshot in internal/transaction/repository.go.
--   Store, Store/Tables a connection to PostgreSQL: the tables of migrations/ as lists of rows, and
--                       statements on them.
--   Ledger/Entry        internal/ledger/journal_entry.go.
--   Ledger/Posting      the pure steps of internal/ledger: check_balanced and sum_lines are the loop of
--                       PostJournalEntryTx; compute_net_deltas, check_sufficient_balances,
--                       validate_entry_header and collect_account_ids have the names of the code.
--   Ledger/Repository   the statements of internal/ledger/repository.go, and PostJournalEntryTx.
--   Ledger/Effect, Deltas, Balances, Equation, Loaded, Sound, Debits, Invariant, Returns
--                       what a posting does to the tables, proved step by step, and when it returns.
--   Entries, Entries/Atomic
--                       PostJournalEntry, an entry in a database transaction of its own, and its proofs.
--   Transaction/Status  internal/transaction/transaction.go, with its laws.
--   Transaction/Repository
--                       internal/transaction/repository.go: each query as a function of the table.
--   Idempotency         encodeTransaction and decodeTransaction of internal/transaction/service.go.
--   Audit               internal/audit/event.go and the payloads of
--                       internal/transaction/audit_payload.go.
--   World               what a call of the service sees: the committed tables, the open database
--                       transaction, the store's keys, the audit trail, the lock flag.
--   Transfer/Request, Claim, Trail, Prepare, Legs, Service
--                       TransferService.Transfer in six parts: validation; the idempotency store
--                       (try_return_cached, acquire_exclusive, store_result, unlock); emitTransferAudit;
--                       the checks and the insertion of the row (prepare, create_or_find); the two
--                       entries (clearing_entry, settlement_entry) and their posting (settle_in_tx,
--                       fail_tx) and the whole of it (transfer).
--   Transfer/Frame, Kept, Moves, Steps, Atomic, Sound, Replay, Posted, Fresh
--                       the proofs about a transfer.
--   Accounts/Service    internal/account/service.go and internal/account/repository.go.
--   Accounts/Restate, Laws, Open
--                       the proofs about them.
--   Netting, Netting/Flow
--                       NetPositions of internal/settlement/settlement.go and its proof.
--   Transaction/Settled the day of the settlement, the listing and the bulk update of
--                       internal/transaction/repository.go; Transaction/Settled/Bounds about the day.
--   Settlement, Settlement/*
--                       RunDailyNetting of internal/settlement/batch_processor.go: mark_reconciled is
--                       its end from the test for an empty list on; its proofs, on World/Tx, the rules
--                       for a database transaction step by step.
--   Ledger/Reports, Ledger/TrialBalance
--                       the two queries on the journal, of internal/ledger/repository.go and
--                       internal/ledger/trial_balance.go: GetAccountEntries and GetTrialBalance, the SQL
--                       as functions of the tables.
--   Ledger/Reports/*    what a balanced journal is (Trial), that postings keep it (Kept), and what the
--                       queries give on it (Trial, History).
--   AuditLog, AuditLog/Laws
--                       the queries of internal/audit/logger.go.
--   Api/Answer          api/dto: what a handler answers, and the notations of ids and times (Formats).
--   Api/Accounts, Transfers, Reports, AuditQuery
--                       the handlers of api/handler; a handler is split where it returns early.
--   Api/Routes          the routes of cmd/server/main.go: `serve` is the handler of a request.
--   Api/Explained, Safe, Errors, Handled, Once, Health, Queries
--                       what holds of every answer, of the GET routes, of transfers that are posted, of
--                       the health check after them, and of the trial balance.
--   Logctx              pkg/logctx/context.go: what a request's context carries to its log event.
--   Middleware, Middleware/Laws, Trace
--                       api/middleware/logging.go: `request_logger` around a handler, and the trace id.
--   Seed, Seed/*        cmd/seed/main.go: the chart, the two loops and the database transaction.
--   Startup, Startup/*  config/config.go, pkg/logging/logger.go, NewTransferService of
--                       internal/transaction/service.go and the start of cmd/server/main.go.
--   */Tests             small inputs on which the results are tried.
--
-- Every call to the database, to the store or to the audit log gets a number, and the environment
-- (Store.Env) says for each number whether the call fails, whether one that reports an error (a
-- commit, a statement, a write to the store or to the audit log) has taken effect all the same, the
-- time, the id that gen_random_uuid() makes, and whether a key has outlived its time to live. A result
-- that says nothing of it holds for every environment. No definition needs fuel: the loops of the code
-- run over lists.
--
-- What is not modelled. One request runs at a time: the interleavings of two requests, which the row
-- locks and the isolation level of PostgreSQL govern, are not part of the model, and a rolled-back
-- transaction has changed nothing. Statements are functions on the tables. They carry the constraints
-- of migrations/ that can refuse what the code writes: the enumerations, the length of a currency, the
-- CHECKs on amounts and on the two accounts of a transfer, the unique keys and the primary keys of
-- accounts, journal_entries and transactions, the range of a line's sequence, and the references to
-- accounts and transactions, of which those of a line's entry and accounts are met by the code before.
-- Not kept are the range of NUMERIC(18, 4), the blanks that CHAR(3) adds to a shorter currency, and
-- the primary key of journal_entry_lines, whose ids nothing refers to. A statement that fails in an
-- open database transaction leaves it open, where PostgreSQL only lets it be rolled back; the model
-- then allows more runs than there are. The status of an entry is one of its two constants or empty.
-- Identifiers and times are numbers; the message of an error is kept as the error itself. Texts are
-- lists of code points, and strings.ToUpper and strings.ToLower follow ASCII. A Go map from ids is an
-- association list in the order in which its keys were first written, where Go's order is random. A
-- zone is the function that gives its offset at each instant. JSON is a record with the fields of the
-- object: a request arrives decoded or not at all, and the size of a written body is a parameter. The
-- router's matching of a path, the reading of .env files, the connections themselves and listening on
-- a port belong to libraries; so does zerolog, of which the event of a request is kept and the events
-- inside the services are left out. Cancellation is left out. docs/docs.go is generated.
pub mod Base
pub mod Error
pub mod Decimal
pub mod Money
pub mod Account
pub mod Exec
pub mod Transaction
pub mod Ledger
pub mod Store
pub mod Idempotency
pub mod Audit
pub mod World
pub mod AuditLog
pub mod Accounts
pub mod Entries
pub mod Netting
pub mod Settlement
pub mod Transfer
pub mod Api
pub mod Logctx
pub mod Middleware
pub mod Seed
pub mod Startup
