-- ===== src/Lib.antt =====
-- The backend of the task execution engine (backend/, in Go): clients submit tasks over HTTP, the rows
-- of the MySQL table `tasks` are the queue, a scheduler claims rows fairly per client and hands them to
-- workers, the workers report back, and dashboards watch over server-sent events.
--
-- Parts and files:
-- - Models: the rows of backend/models (Task, DeadLetterTask, ApiKey) and the column defaults.
-- - Database: what the services use of gorm and MySQL, as an interface. `Database` holds the state and
--   the statements (UPDATE, SELECT, FOR UPDATE SKIP LOCKED, INSERT, DELETE, Transaction); Database/Laws
--   says what each does to the tables, by its documentation; Database/Program is the monad of a
--   service's method; Database/Rows and Database/Counted have the lemmas on rows; Database/Memory is a
--   database in memory that satisfies the laws, on which the methods can be run.
-- - TaskService: backend/services/task_service.go, one definition per method (DequeueTaskForClient is
--   `dequeue_task_for_client`, FailTask `fail_task`, and so on), with the WHERE clauses and the
--   assignments of each statement as functions on rows; TaskService/Listing adds ListTasks, with the
--   two queries it makes as an interface of their own, and TaskService/Demo has AddDemoTasks over
--   Database/Keys, the statements on the table api_keys. TaskService/Tenancy says what the methods
--   leave of other clients' rows; TaskService/Create, Read, Claim, Fail, Cancel,
--   Report, Recover and the children of Listing have the theorems on the methods.
-- - Scheduler: backend/scheduler/scheduler.go. `pass` is scheduleOnce behind its guard, `turns` its
--   loop over clients, `turn` and `round` the inner loop. Scheduler/Guard has the isScheduling flag
--   with the goroutines of the ticks as a step relation.
-- - Hub: backend/sse/hub.go, the connections with their buffered channels.
-- - RateLimit: backend/ratelimit/ratelimit.go, the two Lua scripts over an interface of Redis' sorted
--   sets, and the calls Allow and AllowN around them.
-- - Worker: backend/worker/pool.go and handler.go. `process` is the work on one task; Worker/Drain has
--   the pool's channel with Submit, the receives and Stop as a step relation.
-- - Watchdog: backend/watchdog/watchdog.go, the sweep over the stale tasks.
-- - Analytics: backend/services/analytics_service.go, GetSummary in Analytics/Summary, GetThroughput in
--   Analytics/Throughput, GetTypeBreakdown in Analytics/Types. The aggregate queries are the interface
--   Reports: their groups, with COUNT(*), are as Analytics/Groups says, in any order; the columns of the
--   breakdown by type are computed from its groups. Analytics/Rows writes out, apart from the code, the
--   rows that the reports count. A float64 is a parameter.
-- - Registry: backend/worker/registry.go, the snapshots of the workers in Redis' string keys.
-- - Http: backend/controllers, backend/middleware/auth.go and backend/routes/routes.go. Http/Auth is
--   APIKeyAuth, Http/Tasks the TaskController with its limiter and the binding rules of its bodies,
--   Http/Pages the other controllers, Http/Router the table of routes: `serve` takes a request and the
--   state of the server and returns the state after it and the response. The theorems are in the
--   children of Http/Tasks and Http/Router.
-- - Lifecycle: runs of the writing methods of TaskService in any order, whoever calls them.
-- - Seed: backend/database/seed.go, the keys and sample tasks of an empty database.
-- - Config: backend/config/config.go, the settings as a function of the environment.
-- - Decimal: what the backend uses of strconv, ParseUint and Atoi and the printing of numbers.
-- - Prelude: lists, Boolean tests and arithmetic that the parts share. Tests: runs of the definitions.
--
-- How the parts interact: Scheduler calls TaskService for clients and claims, and the Dispatcher
-- interface to hand tasks on; TaskService calls the Database; workers report by TaskService and
-- publish to the Hub; Watchdog calls TaskService. The handlers of Http call TaskService, Analytics,
-- RateLimit, Registry and Hub on one server state.
--
-- Choices. Each statement and each transaction of the database is one atomic step, so an
-- interleaving of instances is a sequence of calls; rows that other open transactions hold are the
-- function `locked`. A statement that fails changes nothing. Times are numbers, and time.Now() is
-- an argument. The fuel of `turn` is the client's deficit and one more, as each round that goes on
-- uses up one of it. A Go int is kept as its 64 bits where it can overflow. Submit's blocking while
-- the workers are busy takes no step of the model. The key's expiry in Redis (PEXPIRE) is taken to
-- remove no entry: when it fires, every entry has left the window, and the next script would remove
-- it. The repository sets no collation, so MySQL's default applies, which ignores the case of
-- letters: texts that come from outside (API keys, the filters of a listing) and the types that
-- GROUP BY collects compare by the database's `weight`, a parameter. Client ids are copied from the
-- rows of api_keys into the tasks, and compare exactly. A payload is stored in a JSON column as
-- `json_column` of its text, MySQL's normal form, a parameter too; the payload of a dead letter is
-- that of a row, in this form already. Times in Analytics and Http are in milliseconds. Decoding a
-- JSON body and the text of a validation error are a parameter of Http; a path is given as its
-- segments.
--
-- Not modelled: what ORDER BY of a column means (the interface Listings has it as a relation), the
-- order of the groups of a report, the values of averages and quotients, start-up and shutdown of
-- the process, the tickers, logging, the HTTP connection of an event stream, the web client and the
-- load generator.
pub mod Prelude
pub mod Decimal
pub mod Models
pub mod Database
pub mod TaskService
pub mod Hub
pub mod Scheduler
pub mod Watchdog
pub mod Worker
pub mod RateLimit
pub mod Registry
pub mod Analytics
pub mod Http
pub mod Lifecycle
pub mod Seed
pub mod Config
mod Tests
