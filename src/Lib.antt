-- ===== src/Lib.antt =====
-- The PostgreSQL configuration operator: a Kubernetes operator, written in Go, that brings
-- tables, publications and grants of PostgreSQL databases to what custom resources ask for.
--
-- The program's parts. A resource PostgresConfig lists publications and tables; its controller
-- creates, updates and deletes one PostgresPublication for each publication listed. The
-- controllers of PostgresPublication, PostgresTable and PostgresGrant read their resource,
-- connect to the PostgreSQL server that it names with the password of a Secret, send SQL
-- statements, and record events. The publication controller also keeps a finalizer on its
-- resource, so that the publication is dropped before the resource goes. An admission webhook
-- refuses grants with privileges that PostgreSQL does not know.
--
-- Which file models which part.
-- - Base (Tests, Lists, Text, Decimal, GoMap): helpers that all parts share. Decimal is `%d` for
--   the port, a uint16: at most five digits, so fuel five is enough. GoMap is a Go map as an
--   association list with distinct keys, with what it means that an order of `range` visits every
--   entry once.
-- - Api (Common, PublicationTypes, TableTypes, ConfigTypes, GrantTypes, GroupVersionInfo): the
--   structs of api/v1alpha1/common_types.go, postgrespublication_types.go,
--   postgrestable_types.go, postgresconfig_types.go and postgresgrant_types.go, with
--   `PrivilegesForType` and `IdentifiersForType`; GroupVersionInfo the group and version of
--   groupversion_info.go.
-- - Errors: Go errors as values, controllers/utils/errors.go.
-- - Webhook: api/v1alpha1/postgresgrant_webhook.go: `ValidPrivileges`, `validatePrivileges`,
--   `validatePrivilegesForType`, `ValidateCreate`, `ValidateUpdate`, `ValidateDelete`. Verdict
--   classifies the answer for one object type, Accepts says which grants are accepted, Bounds how
--   many privileges they have.
-- - DeepCopy: api/v1alpha1/zz_generated.deepcopy.go, in Parts, Structs and Resources. Memory is a
--   heap of arrays with slices and pointers into it, and the structs as they stand there; Kinds
--   the arrays of each type. Gives holds the rules of proof; Copier, Slices, Pointers, Specs,
--   Grants and Objects what values in memory stand for, and that each is copied; Apart and
--   Promises what a copy shares with its original. Samples and Lists are objects for its tests.
-- - Effects: the requests that leave the process, in order, as a history; a computation takes the
--   history and ends with a value or an error and the longer history. World holds the answers of
--   the code outside of this repository. Hoare and Steps are the rules of proof for computations;
--   Runs is about calls whose requests are known beforehand, and ties how they end to the
--   answers.
-- - Connection: `SetupPostgresConnection` of controllers/utils/utils.go. Escape and UrlText are
--   the text of the URL that it connects to, as Go's net/url writes it, and a reader of such a
--   text; Cutting, Reading and RoundTrip are about reading it. A text is there the list of its
--   bytes, one per character.
-- - Events: the reasons of the recorded events, and the beginning that three `Reconcile`
--   functions share (read the object, connect, close behind the rest).
-- - Manager: controllers/publicationmanager: the interface `Manager` (manager.go) as a record of
--   operations, `StdManager` (Std, std.go) and `AivenManager` (Aiven, aiven.go), which fill it.
--   The publication controller works with any value of the record. Texts holds the statements
--   that managers are to send, written down apart from the code. Alter is about
--   `AlterExistingPublication`, Keeping about what no operation of a manager changes.
-- - Publication: controllers/postgrespublication_controller.go. Finalizers, Holding (what is sent
--   while the finalizer is stored), Reports and AllTables hold theorems.
-- - Table: controllers/postgrestable_controller.go. Columns is about the columns that are added,
--   Texts holds the statements that are to be sent, apart from the code, Transaction about the
--   transaction that adds them, Reports about the events.
-- - Grant: controllers/postgresgrant_controller.go. Requests is about the statements sent,
--   Privileges about their privileges, by what the webhook accepts.
-- - Config: controllers/postgresconfig_controller.go. Planning is about the difference of the two
--   lists of publications, Apply about carrying it out, Convergence about the plan after that,
--   Owner about the index of owned publications. Store reads what the API server has stored off
--   the requests; Members, Settles, Naming (the names stored), Specs (the contents) and
--   Reconciled are about a whole reconciliation against it.
-- - Matcher: `HaveColumns` and its messages of controllers/utils/have_columns_matcher.go. Scan is
--   about the maps that the rows fill, Matches about the answer.
-- - Sessions (Connecting, Publications, Tables, Grants): the state of a connection and of its
--   transaction as a function of the history, and how three controllers use them.
-- - Server: reconciliations against servers that work, with what they leave as an abstract view
--   of the server: Tables (Fitting, Statements, Requests, Again) the names of a table's columns,
--   Publications (Managers, Finalizing, Requests, Samples, and FromConfig for the way from a
--   config to the server) the tables and operations of a publication, Grants (Wanted, Statements,
--   Requests) the rights of a role on tables. The view is any function of the history; the
--   records `ServesTable`, `Creates`, `ServesPublication` and `ServesGrant` say what PostgreSQL
--   answers to statements, which are written down apart from the code, and what they do to the
--   view, and `Opens` and `Stores` what the Kubernetes API answers. `Manages` is the contract of
--   the interface `Manager`, by which the publication controller is treated.
-- - Startup: main.go, the `SetupWithManager` functions of the controllers,
--   `SetupWebhookWithManager` and the registration of the kinds (groupversion_info.go and the
--   `init` functions). Order is about the order of the steps.
-- - Logging: `WithRequestLogger` and `RequestLogger` of controllers/utils/utils.go, with a Go
--   context as the list of its values. Found is about the logger that a context gives.
-- - TestUtils: `PostgresContainerRef` of controllers/testutils/postgres.go and the text that its
--   `SetupPostgresConnection` connects to, with `strings.SplitN` and `strconv.Atoi` as it calls
--   them. Endpoint is about the endpoint that it takes apart.
-- - Samples: objects and worlds on which the test modules run the code.
--
-- How state corresponds. The controllers keep no state between two calls of `Reconcile`: what
-- they change is behind the Kubernetes API and the PostgreSQL server. So each answer is a
-- function of the history of all requests before it, and a World is one choice of these
-- functions: any server, with whatever else happens meanwhile. `defer` is `deferred`:
-- one more request however the body ends. A nil error is `ok`; `fmt.Errorf` with `%w` is
-- `wrapped`; an index out of range is an error `panic`. The object that `Update` returns replaces
-- the one sent, as the client does. The order in which `range` visits a map is an argument. All
-- loops are structural recursion; there is no other fuel.
--
-- Parameters, as fields of World: `WithValues` of logr, which may panic on an unset logger, pgx
-- `Identifier.Sanitize` and `EscapeString`, `AddFinalizer` and `RemoveFinalizer`,
-- `NewControllerRef` and `GetControllerOf`, `IgnoreNotFound`, and every answer of the Kubernetes
-- API and of PostgreSQL. `format.Object` of Gomega is an argument of the matcher and of its
-- messages. Of the deep copies, `DeepCopyInto` of `metav1.ObjectMeta` and `metav1.ListMeta` are
-- arguments, with the arrays and maps that belong to them as a type of their own; theorems assume
-- that they copy right. The models of the controllers work on values, not on that heap. What a
-- theorem relies on is named in its statement.
--
-- The statement `GRANT` names no object type, as in the code.
--
-- Not modelled: what is logged. The `Log` of the table and grant controllers, which main.go
-- leaves unset, is an argument of their `Reconcile`, which begins with `WithRequestLogger`; on
-- the `Log` of the other two, which main.go sets, the call of `WithValues` succeeds and is left
-- out. Not modelled either: the parsing of the command line (`main` takes the parsed flags); the
-- status of an object where it has no field; the other test utilities, which set up containers
-- and connections; manifests under config/.
pub mod Base
pub mod Api
pub mod Errors
pub mod Webhook
pub mod DeepCopy
pub mod Effects
pub mod Connection
pub mod Events
pub mod Manager
pub mod Publication
pub mod Table
pub mod Grant
pub mod Config
pub mod Startup
pub mod Sessions
pub mod Server
pub mod Matcher
pub mod Logging
pub mod TestUtils
pub mod Samples
