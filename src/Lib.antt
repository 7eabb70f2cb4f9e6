-- ===== src/Lib.antt =====
-- A verification library for JobScout AI, a service in Go that imports job vacancies, filters and scores
-- them against the profile of one candidate, and leads applications through approval, submission and the
-- employer's answer. Nothing is submitted without the candidate's approval.
--
-- The parts, and where each stands:
-- - Prelude and its children: tests, lists, signed integers, dictionaries and results shared by all.
-- - Host: what the program takes from tables outside the repository, as one record that every function
--   using it takes as an argument. Strings: Go's package strings over native texts.
-- - Core: internal/core. SourceType, VacancyStatus and ApplicationStatus are the string types of types.go
--   and application.go with their transition tables; Types has the records; Normalize, Lists, Filters,
--   Scoring, Resume, Resume/Select and CoverLetter are the files of those names, one function per Go
--   function, with large functions cut at their blocks.
-- - Store: internal/store. A World is the database of memory/memory.go, a flag for the rollback of
--   postgres/postgres.go (WithinImportTransaction), and the sequences that identifiers and times are
--   drawn from; it also counts the requests to services outside and has the calls sent to Telegram on
--   record. Store/Exec is the monad of methods that act on a world and may fail; Store/Memory and
--   Store/Lists hold the methods; Store/Exec/Ends the rules for reasoning about them; Store/Postgres has
--   the tables of postgres/postgres.go, Store/Postgres/Queries, Writes and Applications its methods.
--   Store/Applications what holds of the stored applications, Store/Vacancies and Store/Log the same for
--   the vacancies and the audit log.
-- - Config: internal/config/config.go, over the environment as a function.
-- - Hh: internal/integrations/hh/client.go, what a vacancy on HeadHunter is; Hh/Calls the two calls, and
--   Hh/Requests the throttle and the three attempts of getJSON over a clock that goes on with every step.
-- - Telegram: internal/integrations/telegram/bot.go, what the bot receives and sends; Telegram/Posts the
--   client.
-- - Migrate: internal/migrate/migrate.go.
-- - App: internal/app. Applications, Outcome and Prepare are applications.go; Decision, Import,
--   Vacancies, Profile, Links, Search and ManualImport are app.go, Resumes is resumes.go; Workflow puts
--   the five commands on applications into one data type and runs histories of them. App/Http is http.go
--   and http_resumes_applications.go: Router serves a request, Vacancies and Applications have the
--   handlers, Errors and Codes the codes. App/Bot is bot.go, with the texts and buttons in App/Bot/Cards,
--   what a command or a button asks for in App/Bot/Commands, and the answers in App/Bot/Replies.
--   App/Events puts requests and updates into one data type and runs sequences of them;
--   App/Workflow/Service, App/Http/Sound and App/Bot/Sound have the lemmas behind it. The service calls
--   the store and the two clients, the API and the bot call the service, and errors pass through as
--   values.
-- - Tests: a small world, and each theorem with hypotheses at work in it.
--
-- Conventions. Go's int is a signed integer without bounds, except where a product of settings or of
-- request parameters or a sum over the weights is formed, which wraps at 64 bits. A time counts
-- nanoseconds from Go's zero time. A pointer is an option, a map an association list whose order stands
-- for the order of Go's range, an undeclared value of a string type the constructor other. A failing call
-- is a result with the world as far as it was written; a panic is the error panicked, which no handler
-- answers. Every loop runs over a list or a text, but for four: the pages of a search count down from the
-- setting HH_MAX_PAGES, the attempts of a request from three, the digits of a number from the number
-- itself, and the rounds of the polling are as many as a caller names, since it ends with its context
-- only. The identifiers of core.NewID are a sequence, and a theorem that needs them fresh says so in the
-- hypothesis Fresh. What HeadHunter and the Bot API answer to the n-th request is a function of n and of
-- the request.
--
-- Not modelled: how the Postgres store encodes and scans columns other than the times, and the methods of
-- its txStore, which repeat those of Store; and the start of the program. Outside, as parameters:
-- encoding and decoding of JSON and of forms, the HTTP transport, the parsing of URLs, Unicode's tables,
-- SHA-256, what a column of type TIMESTAMPTZ keeps of a time, and what a migration's text does to a
-- schema. The request for the path * is left out, and the bytes of a body behind the first 2^20 are not
-- seen. Invalid UTF-8 and failures of the database itself are left out, and the cancellation of contexts
-- everywhere but in Hh/Requests.
pub mod Prelude
pub mod Host
pub mod Migrate
pub mod Config
pub mod Hh
pub mod Telegram
pub mod Strings
pub mod Core
pub mod Store
pub mod App
pub mod Tests
