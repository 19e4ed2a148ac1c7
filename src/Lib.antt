-- ===== src/Lib.antt =====
-- The server of FamilyLedger, in server/: accounts and transfers between them, families with their
-- members, roles and invite codes, the permissions that families give, transactions, and
-- loans with their amortisation schedules and prepayments.
--
-- A request comes in with the user's id in its context (Store.Context). The account service
-- (Account*, server/internal/account/service.go) asks the permission check (Permission*,
-- server/pkg/permission/check.go) about accounts of a family, which reads the members that the family
-- service (Family*, server/internal/family/service.go) keeps. The family service writes the audit log
-- (Family.log_audit, server/pkg/audit/audit.go), as does the transaction service (Transaction*,
-- server/internal/transaction), which asks the same permission check and keeps the balances of the
-- accounts in step with the transactions. The loan service (Loan*,
-- server/internal/loan/service.go and prepayment.go) computes schedules.
--
-- - Base: shared names, Boolean tests, lists. Base.Int: integers. Base.Int64: int64 and int32 with
--   their wrap-around.
-- - Db: handlers that talk to PostgreSQL by pgx. A handler is a function on the tables and on the
--   failures still to come: each statement may fail, a failed one aborts its transaction, and a
--   transaction that does not commit leaves the tables alone. Db.Triple: rules for pre- and
--   postconditions of handlers.
-- - Store: the tables of server/migrations, and github.com/google/uuid as an interface, whose law is
--   that a printed identifier is read back. GetUserID of server/pkg/middleware/auth.go.
-- - Permission: permission.Check. Permission.Granted: whom it lets in.
-- - Account: CreateAccount, DeleteAccount, TransferBetween, the access checks. Account.Rows: what
--   updates do to the rows. Account.Transferring and Account.Transfers: transfers. Account.Creating and
--   Account.Deleting: the other two. Account.Types: the conversions of types.
-- - Family: CreateFamily, roles, the log. Family.Joining: JoinFamily, GenerateInviteCode.
--   Family.Roles: SetMemberRole, SetMemberPermissions, LeaveFamily. Family.Owning: TransferOwnership,
--   DeleteFamily. Family.Rows and Family.Changes: roles and owners after each statement. Family.Ownership, Family.Keeping
--   and Family.Handing: the invariant, by statement and by operation. Family.Requests: the service as a
--   state machine. Family.Deleting and Family.Logging: two operations that the tables stand against.
-- - Family.Auditing: LogAudit writes to its own table.
-- - Transaction: what the handlers of server/internal/transaction share. Transaction.Input:
--   validateCreateInput. Transaction.Create: CreateTransaction and the stages of its pipeline.
--   Transaction.Change: UpdateTransaction and DeleteTransaction. Transaction.Batch: the two operations
--   on many transactions. Transaction.Asking, Transaction.Resolving, Transaction.Booking and
--   Transaction.Creation: what the checks, the stages and the whole of CreateTransaction do.
--   Transaction.Access: who may change a transaction. Transaction.Removal: DeleteTransaction.
--   Transaction.Revising,
--   Transaction.Adjusting and Transaction.Updating: UpdateTransaction. Transaction.Importing and
--   Transaction.Clearing: the operations on many, with Transaction.Marking on the rows that are marked.
--   Transaction.Net: what transactions come to, and the
--   opening of an account. Transaction.Rows: rows and properties of all of them.
--   Transaction.Openings, Transaction.Reversal and Transaction.HomeBooks: what creating, deleting and
--   changing do to the openings. Transaction.Requests: the service as a state machine.
-- - Categories: CreateCategory, UpdateCategory, DeleteCategory, ReorderCategories, and
--   server/pkg/category/uuid.go over the hash of the UUID library. Categories.Tree: the two levels.
--   Categories.Keeping and Categories.Requests: the operations keep them. Categories.Merging,
--   Categories.Moving and Categories.Budgeting (row by row), Categories.Owned and Categories.Merged:
--   MergeCategories.
-- - Loan.Float: float64 as an interface, of which only the ranges of the values that are rounded to an
--   int64 are assumed, and the most items that make gives a slice.
--   Loan.Calendar: advanceMonths, daysInMonth, daysInPeriod. Loan.Schedule: generateSchedule and
--   generateWithFixedPayment. Loan.Types and Loan.Request: messages, enumerations,
--   validateCreateLoanRequest. Loan.Prepayment: calcPrepaymentSchedule.
-- - Market: when quotes are refreshed, server/internal/market/schedule.go, over the time zones of the
--   machine. Market.Trading: the hours of trade.
-- - DynUpdate: the builder of UPDATE statements, server/pkg/dynupdate/builder.go. DynUpdate.Entities:
--   the updates in server/internal/sync/entity_ops.go that use it, from the payload to the statement.
--   DynUpdate.Numbering and DynUpdate.Updates: what the statements are.
--
-- Definitions carry the names of the code in snake_case. A name with a capital is a type or a
-- predicate. What the server draws (identifiers, invite codes, the time) is an argument. A panic is
-- `none`, an error its gRPC code.
--
-- Bounds and fuel. generateWithFixedPayment stops at 720 rounds, as in the code. The loop of
-- advanceMonths that takes twelve off a month has the month as fuel, and each round takes twelve.
-- The digits of a number are printed with the number as fuel, and each
-- digit after the first takes nine tenths off. All other loops run over a list or count down.
--
-- Not modelled: the services for sync (but for the statements of four updates), budgets, investments,
-- assets, market data (but for the trading hours), notifications and the dashboard; import, export,
-- authentication, configuration and the app; the handlers of the loan service that write tables; the texts of errors and the log file; running out of memory. Rows of the
-- table users, to which owners and members refer, are taken to exist. Requests are served one after
-- the other.
pub mod Base
pub mod Db
pub mod Store
pub mod Permission
pub mod Account
pub mod Family
pub mod Loan
pub mod Market
pub mod Transaction
pub mod Categories
pub mod DynUpdate
