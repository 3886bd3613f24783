-- ===== src/Lib.antt =====
-- A model of the bulk service: spreadsheets of licence data are uploaded, validated, confirmed against
-- a billing service and handed over to Kafka row by row, and the results are counted as they come in.
--
-- The parts, by their files:
-- Domain: the types of internal/domain, internal/ports and internal/kafka/events.go.
-- World: the state of the service: the rows of both tables (World/Rows, after migrations/001_init.sql)
--   and a log of what was asked of billing, Kafka and the file storage. `Action` is a step on it that
--   may fail, `Env` holds the answers from outside (World/Monad).
-- Postgres: internal/adapters/postgres and internal/repo. Postgres/Tables are the statements on
--   rows, Postgres/TxColumn the column of transaction ids, Postgres/Convert the conversions, and
--   Postgres/Repositories the methods of both repositories (`get_batch` is `GetByID`, `save_batch` is
--   `Update`, `get_jobs` is `GetByBatch`).
-- Outside: the interfaces of internal/ports to Kafka and billing.
-- Manager: `BatchManager` of internal/batch/manager.go, a function for each method.
-- Confirm: `ConfirmBatch` of internal/usecase/bulk/service.go.
-- Validation: pkg/validation, with the rule files it embeds.
-- Parser: internal/parser, the columns (Parser/Columns) and the rows (Parser/Sheet).
-- Upload: `CreateBatchFromFile` of internal/usecase/bulk/service.go, which calls the parser, the
--   validation and the repositories. Upload/Client is the client of the validation BFF in
--   internal/validation/bff_validator.go.
-- Results: the handler of internal/di/di_handler.go, and the consumer of internal/kafka/consumer.go
--   that calls it for each message of the topic bulk.result.
-- Exporter: internal/exporter/manager.go, its queue and its worker as steps on one state; Exporter/Worker
--   is the work of one export, up to the file that is saved.
-- Storage: internal/storage/file_client.go, the client of the file storage.
-- Reader: pkg/xls/reader.go, which turns the bytes of a file into the rows that Parser gets.
-- RateLimit: internal/transport/http/middleware/ratelimit.go: the token bucket, and the count of Redis.
-- Auth: the start and the tests of internal/transport/http/middleware/auth.go.
-- Barcode: pkg/xls/barcode.go.
-- Config: internal/config/config.go; Handlers/Limits/Start is what its limits come to.
-- Wiring: `NewDeps` of internal/di/di.go, the parts that are made from the configuration.
-- Router: the routes of internal/transport/http/router.go, and `serve`, the way of a request through
--   Auth and RateLimit to its handler, which is a name here (`Endpoint`).
-- Billing: internal/billing/client.go. `over_http` fills the answers of `Env` to billing by it.
-- Producer: internal/kafka/producer.go, `Publish` with its retries.
-- Sheets: the files of results, `ExportResultsXLS` of internal/usecase/bulk/service.go. The
--   downloads are Handlers/Download, and the requests to export Handlers/Exports.
-- Handlers: internal/transport/http/handlers, a file for each handler of batch.go, upload.go,
--   template.go, admin.go and the exports, with the limits of internal/limits (Handlers/Limits). Each is a `Handler` on the
--   state of World, composed of the methods above as the code composes them; an error of a method is
--   a value there, and the answer is a `Reply` (Handlers/Reply). Those of the exports act on the
--   state of Exporter. The listing of batches that they use is Postgres/Listing, and
--   the statements of the statistics for the admin are Postgres/Stats.
-- Examples: concrete data, and the theorems applied to it.
--
-- Every call to something outside has a number, the count of such calls before it, and `Env` answers by
-- that number, so a theorem that fixes nothing about `Env` holds for any sequence of answers and
-- failures. A failed statement of the store changes nothing there. The service runs one request at a
-- time here. Two places model requests that interleave: the exporter with its worker, and a cancellation
-- between the parts of `OnJobStatusChange` (Manager/Races).
--
-- Numbers: Go's `int` is an unbounded ℤ where the values are counts of rows of one file. The bytes of a
-- number of megabytes (Handlers/Limits and Upload) and the offset of a page (Postgres/Listing) come from
-- any number of the environment or of a request, so they wrap around at 64 bits (`wrap_64` of Base/Int).
-- The tokens of RateLimit, float64 in the code, are exact billionths, for rates that are whole. Every loop
-- is a structural recursion over a list or over the attempts that are left, so none needs fuel. Times
-- are numbers that count from Go's zero time. JSON numbers are integers.
--
-- Choices: rows are read in the order of their insertion, though the statements have no ORDER BY; a
-- map that Go ranges over is a list, in one order of its keys; strings stand for the texts of
-- statuses that no constant names. Parameters: the match of a regular expression, Go's `strings`
-- functions, the check of a UUID, what a spreadsheet library finds in a file, the replies over HTTP,
-- the JSON decoder, the match of a route and the redirects of the others, what excelize answers, how
-- much of a file a client takes, the detection of content types, the
-- keys and the parsing of tokens, the formats of times, and the ORDER BY of the
-- database, in each call. A request
-- is what gin has read from it: its parameters as texts, and its body as bound, or none.
--
-- Not modelled: the start of the server and the connection to the database, request ids, logging, metrics
-- and tracing, and the mocks of the tests. These call libraries or observe, and keep no state of the
-- service.
pub mod Base
pub mod Domain
pub mod World
pub mod Postgres
pub mod Outside
pub mod Manager
pub mod Confirm
pub mod Validation
pub mod Parser
pub mod Upload
pub mod Results
pub mod Exporter
pub mod RateLimit
pub mod Barcode
pub mod Config
pub mod Wiring
pub mod Router
pub mod Billing
pub mod Producer
pub mod Storage
pub mod Reader
pub mod Sheets
pub mod Auth
pub mod Handlers
pub mod Examples
