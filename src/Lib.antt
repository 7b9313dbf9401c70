-- ===== src/Lib.antt =====
-- Go2Bank, a bank's back end in Go (package paths are from the root of the repository).
--
-- The handlers of api/ read and change the tables of db/sqlc through its store; sessions,
-- one-time passwords and request counts live in Redis; access tokens are made by token/.
--
-- Prelude: shared names, integers by two natural parts, int32 and int64 with Go's wrap-around.
-- Db.Model, Db.Error: db/sqlc/models.go and error.go. A database is its tables, the sequences
--   behind the ids, the clock, the state of the transaction, the rows that it has locked and a
--   schedule of faults: each statement takes one element, which may fail it before it does anything. Ids are natural numbers,
--   since the requests are checked for `min=1` and no row has another.
-- Db.Query: the monad of a query, and what holds of every statement.
-- Db.Account, Db.Entry, Db.Transfer, Db.Currency, Db.User: the queries of account.sql.go and the
--   other generated files, read from their SQL text and the constraints of db/migration.
-- Db.Store: store.go (execTx, TransferTx, addMoney). A rollback restores the tables and not the
--   sequences. What TransferTx returns beside an error is not modelled: its caller drops it.
--   Db.Store.Booking, Runs and Ledger prove what a transfer books, and what holds after many, one
--   at a time. Db.Store.Race takes the checks and the bookings of transfers in any order, where a
--   step waits for the rows that another transfer's check has locked, and the bookings, whose updates
--   lock their rows until the commit, are one step; Db.Store.Locks has the order in which these
--   updates take and wait for their locks; Db.Store.Refines has the transfer as a change of
--   a ledger, and Db.Store.Fitting says when an int64 balance does not wrap.
-- Token: token/payload.go and paseto_maker.go, over an abstract encryption and clock.
-- Util: util/currency.go, util/role.go and api/rbac.go. Util.Config: util/config.go, over viper.
--   Util.Random: util/random.go, over a generator with a state.
-- Api.Gin: what a handler sees and does. A handler is a state monad over the database, the
--   key-value store, the signed-in payload and the calls on gin.Context, with early return and panic.
-- Api.Binding: the `binding` tags. A body that does not decode is `none`; the patterns of the
--   validator library are arguments.
-- Api.Account, Api.Transfer: api/account.go and api/transfer.go.
-- Api.Validator, Api.User: api/validator.go, and the users' part of api/user.go.
--   Api.User.Valid says which updates are valid, by what is asked of them. Util.Password is
--   util/password.go over an abstract bcrypt.
-- Redis: the interface of redis/redis.go, with the laws of a map and of a sorted set, for calls
--   that go through and while no key expires. Redis.Sparing has the calls on other keys.
--   Redis.Client: the methods of RedisStore, which fill the interface over a client of a server
--   that does what Redis documents. Redis.Memory is an instance for the tests.
-- Api.Session: loginUser and logoutUser of api/user.go, and api/renew.go. A child for each of the
--   login, the renewal and the logout.
-- Api.Middleware: api/middleware.go; the rest of the chain is an argument. Its children follow the
--   authentication, the one-time password, and the limit of the rate, whose specification is the
--   log of Api.Middleware.Window. Api.Route composes the middlewares of POST /api/auth/transfers as
--   api/server.go does.
-- Api.Oauth: googleOAuth of api/oauth.go, over the two calls to Google's servers; Api.Oauth.Client
--   has these calls over a client of HTTP, and testGoogleOAuth.
-- Api.Server: NewServer of api/server.go, with the chain of every route.
-- Worker: worker/task_send_otp_email.go and api/otp.go, over a queue, a code and a mail server that
--   are arguments. Of a wrapped error only the first words are kept. Worker.Processor is
--   worker/processor.go, and Worker.Delivery follows a code from its mail to its use.
-- Mail: mail/gmail.go, over the library email.
-- Main: main.go. The start goes through its steps by what the libraries answer; Main.Boot says what
--   a program that has started has behind it. Main.Group has the three goroutines of the wait group
--   as steps in any order, over errgroup, to the end of main.
-- Api.Reading, Api.Rows, Api.Writing, Api.Quiet: how the parts of a handler are put together,
--   those that only read, the last query, and those that leave the store.
-- Samples: the data of the tests, which stand in the modules named Tests.
--
-- float64 is a bit pattern with the operations of an interface. Every loop of the source is over a
-- list or a text. The one fuel is that of Api.Validator.decimal, 20 digits, which print every int64.
-- The runs of goroutines, transfers and locks are relations, which need no fuel.
-- Not modelled: the log lines, the routing of gin and the check of the csrf library, the generated
-- mocks, and Redis, asynq, the HTTP client, the encryption, bcrypt and the driver themselves,
-- which are arguments. A call of a library returns. A commit whose answer is lost after it took
-- effect is not modelled either: one that fails has left the tables. A duration of the
-- configuration is not negative.
pub mod Prelude
pub mod Db
pub mod Token
pub mod Util
pub mod Redis
pub mod Api
pub mod Mail
pub mod Worker
pub mod Main
pub mod Samples
