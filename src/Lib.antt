-- ===== src/Lib.antt =====
-- Verification of the boutique backend, a Go server over PostgreSQL: a catalog, an inventory at
-- each branch, sales that are made and then confirmed, orders, a transactional outbox whose events
-- a dispatcher delivers, push notifications, accounts with passwords and tokens, and reports, behind
-- a GraphQL schema.
--
-- The parts, from the tables up:
--
-- - Models: the records and enumerations of internal/models/models.go and of the webhook's payload.
--   A UUID and a time are numbers; a float64 is a number as well, on which the interface of Float
--   works (Float64Ops: addition, multiplication, conversion from int, order, and NUMERIC(12,2)).
-- - Store: the database as a record of tables, each the list of its rows, and Tx, a call that reads
--   and writes it and ends well or with an error: the pair (value, err) of Go. `in_transaction` is
--   Begin, Commit and the deferred Rollback; `read_on_pool` is a read that is sent to the pool while
--   a transaction is open, as ConfirmSale reads the sale. Env is what the surroundings of a call
--   decide: NOW(), the UUIDs that are drawn, whether a transaction begins and commits, whether a
--   commit that is answered with an error has taken place all the same, the date and the random
--   number of an order's code. Store/Laws inverts chains of calls, Store/Atomic says which calls
--   change nothing, and which change nothing when they fail.
-- - InventoryRepo, SalesRepo, OrderRepo, OutboxRepo, CatalogRepo, PushTokenRepo, UserRepo,
--   BranchRepo: one function for each operation of internal/repository, with the constraints of
--   migrations/0001_init.up.sql that the statement can meet (CHECK, UNIQUE, foreign keys, the range
--   of INTEGER). InventoryRepo/Search is SearchInventory, SalesRepo/Listing the List of sales, and
--   CatalogRepo/Batch has the reads of several keys at once. InventoryRepo/Ledger is the abstract
--   view of the inventory, a stock for each variant at each branch.
-- - SalesService and CatalogService: internal/service/sales_service.go and catalog_service.go.
--   SalesService.create_sale is CreateSale, confirm_sale is ConfirmSale; its body after the read of
--   the sale is confirm_read, so that a sale that has changed since can be spoken of.
-- - Password, Keys, Tokens, AuthService: password.go, keys.go and jwt.go of internal/auth, and
--   internal/service/auth_service.go. argon2, jwt and the PEM files are the records Argon, Jwt and
--   Pem; what the first two are documented to do is IsArgon and IsJwt. Cases has the two functions
--   that lower a text.
-- - Middleware: internal/middleware/auth.go, and the HTTP side of internal/middleware/ratelimit.go,
--   in the order of cmd/server/main.go. A request is what the handlers get of it, the address of
--   the peer as the middlewares before them leave it.
-- - RateLimiter: allow and gcLoop of internal/middleware/ratelimit.go, with tokens in billionths and
--   times in nanoseconds, in which the arithmetic is exact.
-- - Config and Server: internal/config/config.go, and what cmd/server/main.go makes of the settings
--   to load its keys, and to sign and to verify tokens.
-- - Migrate: internal/database/migrate.go. Surroundings has the answers of the file system and of
--   the database; the contents of the database beside the versions are of any type. Seed: the
--   accounts of cmd/seed/main.go.
-- - PushSender: internal/service/push_sender.go over the interface PushTokenStore, which the
--   repository fills (token_store). The answers of the push service are an argument.
-- - Dispatcher: internal/webhook/dispatcher.go. tick is one round; the answers of the receiver, and
--   what Go leaves open on the conversion of a large float64, are the record Network. The signature
--   of a request is in Dispatcher/Signature, over HMAC as an argument.
-- - Reports: internal/repository/reports.go and internal/service/reports_service.go, over the
--   functions of PostgreSQL on times and sums (Sql).
-- - Authz: graph/authz.go and internal/middleware/rbac.go. Mutations: the resolvers of
--   graph/mutations.go, from the claims of the caller to the services. Queries: those of
--   graph/queries.go; Queries/Grid is the page of the inventory, Queries/Listing branches, sales and
--   the dashboard. Resolvers: the fields of graph/types.go that read from the repositories.
-- - System: all of it as one step relation, whose steps are the mutations of graph/schema.graphqls,
--   sent by anybody, and the rounds of the dispatcher. Site is what the server was started with.
--   Store/Keeps has the rules by which a call keeps a property of the inventory; the children of
--   System apply them to each part.
-- - Text: what the program calls of the Go standard library on texts: TrimSpace, ToLower, Split and
--   SplitN (Text/Split), ParseInt and Atoi (Text/Number), base64 and hex (Text/Base64,
--   Text/Hex), the numbers of Sprintf and Sscanf (Text/Scan).
-- - Base: lists and integers over the native numbers, and tables: find_where, select_where,
--   update_where, insert_row, order_by and group_by for SELECT, UPDATE, INSERT, ORDER BY and GROUP
--   BY, with the laws of sorted lists and of groups.
-- - Examples: a small shop on which the theorems are applied.
--
-- Bounds: an int that reaches an INTEGER column is an integer whose range is tested where the
-- statement tests it (fits_int32); the backoff and the times of the settings are computed in 64 bits
-- with their wrap-around, the conversions to int32 in 32. The loop of itoa and that of chunkStrings
-- run on fuel, the number itself and the length of the list, which the theorems on them show to be
-- enough. Times count from an origin before any call.
--
-- Not modelled: concurrency inside a transaction (statements follow each other; interleavings of
-- whole calls are sequences of calls), the network, JSON, and the libraries argon2, hmac, jwt,
-- uuid and chi; lost connections, other than a transaction that does not begin or commit, the lost
-- answer of a commit and an UPDATE of the dispatcher that is not executed; the rounding
-- of float64, which Float64Ops leaves open; the flags and sockets of the commands, logging, static
-- files, the sample products of the seed and cmd/fake-expo-push, a stand-in for tests.
pub mod Base
pub mod Models
pub mod Float
pub mod Store
pub mod InventoryRepo
pub mod SalesRepo
pub mod OrderRepo
pub mod OutboxRepo
pub mod SalesService
pub mod CatalogRepo
pub mod System
pub mod Text
pub mod Migrate
pub mod Password
pub mod UserRepo
pub mod Keys
pub mod Tokens
pub mod AuthService
pub mod Middleware
pub mod Seed
pub mod Config
pub mod Server
pub mod BranchRepo
pub mod Reports
pub mod Authz
pub mod PushTokenRepo
pub mod CatalogService
pub mod Mutations
pub mod Queries
pub mod Resolvers
pub mod Dispatcher
pub mod PushSender
pub mod RateLimiter
pub mod Examples
