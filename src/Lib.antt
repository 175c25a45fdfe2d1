-- ===== src/Lib.antt =====
-- The bank's API: double-entry ledger, transfers and their settlement, the admins' review, check
-- deposits, and what every sequence of their calls keeps; and the way to them, sign-up and sessions.
--
-- The program. A customer's request reaches TransfersService.initiate, which prices it with
-- computeQuote, checks it, and in one database transaction debits the account, posts a journal entry
-- through LedgerService.post and stores the transfer under its idempotency key. The transfer then
-- waits in the queue for SettlementWorker.process, which credits the destination and posts the second
-- entry, or waits for an admin: AdminTransfersService.decide approves it (which forces its settlement)
-- or rejects it (which refunds it), and AdminWiresService approves or reverses wires. The trial
-- balance sums all postings. A person becomes a customer through the funnel of SignupService, whose
-- codes VerificationService sends and checks, and works under a session of SessionsService, which the
-- access strategy tests at each request. Paths below are under apps/api/src/modules.
--
-- The files.
--   Prelude         shared names, integers for `bigint` over the native numbers, tables by key.
--   Bank            the rows (prisma/schema.prisma) and the one state `Bank`; Bank/Action is the monad
--                   of a service method, Bank/Flow how methods end, Bank/Balance the accounts' table.
--   Ledger          ledger/ledger.service.ts, trial-balance.service.ts and chart-of-accounts.ts, with
--                   the invariant (Validity) and the drift of a balance from its ledger (Drift).
--   Quote           transfers/quote.util.ts.
--   Transfers       transfers/transfers.service.ts (Initiate: initiate; Rescue: forceSettle,
--                   getForUser), settlement.worker.ts (Settlement), transfers.repository.ts (Rows),
--                   dto/initiate-transfer.dto.ts (Requests), transfers.controller.ts (Rescue).
--   Admin           admin/transfers/admin-transfers.service.ts (Review) and
--                   admin/wires/admin-wires.service.ts (Wires, with the approved destinations in
--                   Wires/Beneficiaries).
--   PaymentRequests payment-requests/payment-requests.service.ts, decline and pay: a client of initiate.
--   TransactionPin  elevation/transaction-pin.service.ts, with argon2 as a parameter.
--   Splits          autosave/splits.util.ts, with its floating-point percentage as a parameter.
--   Cards           cards/cards.service.ts and card-pan.util.ts (Pan).
--   CheckDeposits   check-deposits/check-deposits.service.ts on the bank's state: Submit and Decide say
--                   what a call does, Lifecycle has the abstract machine that it implements.
--   Signup          auth/signup/signup.service.ts (Signup, Completion), verification.service.ts (Codes),
--                   documents/documents.service.ts (upload), and the endpoints (Funnel).
--   Login           auth/auth.service.ts and auth.controller.ts on the store of Sessions, with
--                   mfa/mfa.service.ts (Challenges) and devices/devices.service.ts (Devices), and
--                   elevation/elevation.service.ts and elevation.guard.ts (Elevation); Calls has their
--                   calls in any order. auth/signup/recovery.controller.ts is Recovery,
--                   me-security/totp.service.ts is Totp.
--   Sessions        sessions/sessions.service.ts, session-idle.util.ts and
--                   auth/strategies/jwt-access.strategy.ts.
--   Savings         goals/goals.service.ts, autosave/autosave.service.ts and
--                   round-ups/round-ups.service.ts (Sweeps), clients of initiate.
--   Recurring       recurring-transfers/recurring-transfers.service.ts, with the calendar of Date.
--   Books           the rules that every method keeps, composed over any list of calls.
--   Examples        concrete runs.
--
-- The model. A method is a function from the state to a result and a state; what it wrote before it
-- throws stays written, and `transaction` rolls back, as prisma.$transaction does. A uuid or an
-- idempotency key is a number, a missing or empty key is `none`, a date is a number of milliseconds,
-- amounts are integers without bound, as `bigint` is. The clock, the uuids that a call draws, whether
-- the job queue is up, and the conversion of a foreign amount to US cents (a network feed and
-- floating-point rates) are the arguments in `Env`. The checks of `initiate` read before its database
-- transaction, and the transaction reads the balance again: the effect of `commit` is proved at any
-- state, not only at the one that was checked. Every loop is structural recursion over a list, but for
-- the search for the year of a day in Recurring/Calendar, which takes the day's number as fuel and is
-- proved to end in that year. Sign-up, sessions, cards and PINs have tables of their own and share no
-- row with the bank's state; there a call is a function to a result and a store. argon2, sha256, HMAC,
-- encryption, the signatures of tokens and the storage of files are parameters; that refresh, MFA and
-- recovery tokens expire (crypto/jwt.service.ts) is part of the model.
--
-- Not modelled: descriptions, notes, notifications, e-mails, audit rows and the display of rates, which
-- no modelled operation reads back; the HTTP layer but for the endpoints named above, and the other
-- modules of the API. The existing ledger accounts that `post` loads into a map are read from the
-- current table, which is the same inside one database transaction.
pub mod Prelude
pub mod Bank
pub mod Ledger
pub mod Quote
pub mod Transfers
pub mod Admin
pub mod Books
pub mod Examples
pub mod TransactionPin
pub mod Splits
pub mod Login
pub mod PaymentRequests
pub mod Cards
pub mod Sessions
pub mod Recurring
pub mod Savings
pub mod Signup
pub mod CheckDeposits
