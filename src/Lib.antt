-- ===== src/Lib.antt =====
-- The security alert platform (Go, gin, PostgreSQL): accounts with roles raise and work on alerts
-- with a deadline (SLA), and what they do goes to an audit log chained by hashes.
--
-- Parts. A handler (internal/handler) checks the request and calls a service (internal/service); a
-- service calls repositories (internal/repository), each of which sends SQL statements to the one
-- database. The permission cache of the RBAC service and the channel of the audit service are in
-- memory. The services share nothing else.
--
--   * Model, Model/*: internal/model, a record for each struct, with the tests on them.
--   * World: the tables of migrations/001_schema.sql as lists of rows, the identifiers given out, the
--     permission cache, the audit channel, the clock, and `faults`: one entry for each database
--     statement to come, saying whether the database fails it. `Exec A` is a Go function that
--     returns a value or an error and changes the world. World/Statements: what a statement can do.
--   * Error: the errors of the services, and fmt.Errorf with %w and %d.
--   * Repository, Repository/*: internal/repository, a definition for each SQL statement with the
--     constraints (UNIQUE, REFERENCES) that make it fail. Repository/Reads: what the queries answer.
--     Repository/Paging: LIMIT and OFFSET, with the offset computed in int64; Pages: how pages fit.
--   * Strconv: strconv.ParseInt, Atoi and FormatInt, and itoa of internal/repository/alert_repo.go.
--     Digits: what is formatted is read back.
--   * Pkg, Pkg/*: pkg/crypto, pkg/jwt and pkg/ratelimit. Pkg/Libraries is what they call and the
--     repository does not hold (bcrypt, SHA-256, crypto/rand, golang-jwt), a parameter of the model.
--     Pkg/Ratelimit/Windows: how many calls pass.
--   * Service/Alerts: internal/service/alert_service.go. Below it: Updates (what an update writes),
--     Status (the life cycle), Escalation and Sla (the SLA check), Overdue (an overdue alert),
--     History (sequences of calls), Pages (of a listing), Rows, Identifiers, Lifetime (what
--     holds over histories).
--   * Service/Auth: internal/service/auth_service.go. Login and Lockout: who gets in.
--     Rotation: which refresh tokens are exchanged. Spent and SingleUse: the second use of one.
--     Passwords: a change of the password.
--   * Service/Rbac: internal/service/rbac_service.go. Termination: the walks over parents.
--     Inheritance and Resolution: what a role is resolved to. Ranks and Depth: the rank of a role.
--     Saved: the rows after a change of permissions. Descendants, Invalidation and Coherence: the
--     cache after it. Effects:
--     what a check leaves. Tree, Descent and Collected: roles that form a tree, and the search there.
--   * Service/Audit: internal/service/audit_service.go. Chain: the hash chain. Verification: its check.
--     Appending: rows are only added.
--   * Service/ApiKeys: internal/service/apikey_service.go. Access: which keys are accepted. Issuing:
--     the row behind a new key.
--   * Service/Users: internal/service/user_service.go. Permissions: the cache after an update.
--     Assigned: the roles after an update.
--   * Http: gin.Context and the response as the handlers use them. `Part A` is a part of a handler,
--     which goes on with a value or has answered. Success: the answers that are no error.
--   * Handler, Handler/*: internal/handler, a definition for each handler (List is `list`, and so
--     on). Escalation, Visibility, Probation, Transitions: the rules that the handlers enforce.
--     Audited: the entries they send.
--   * Middleware: internal/middleware. Router: api/router.go, with a constructor of `Request` for each
--     route; Guards: what a request meets before its handler. Permissions: the table of what a caller
--     may do. Audited: the table of what is recorded. Sessions: logout. System: requests, rounds of
--     the audit consumer and checks of the time limits in any order (`Reach`), and what they keep.
--   * Config: internal/config/config.go, and the loop of the SLA check in cmd/server/main.go.
--   * Common: shared names, Boolean tests, tables as lists, and lemmas on them. Common/Order: rows
--     that an ORDER BY leaves no choice about.
--   * Tests: the theorems at concrete data.
--
-- Integers: identifiers, times in seconds and counts are natural numbers, without the bound of
-- int64. The lifetimes of the tokens, which Config reads from the environment, are integers and may be
-- negative; a time before the clock's origin is then 0, as the clock is never before it. An optional column or pointer is an Option. A field that a JSON request leaves out is "", 0
-- or none.
--
-- Fuel: the walks over the parents of roles go on while a role was not visited before; they run on
-- one more unit of fuel than there are stored roles, which is enough whatever the parents are. The
-- search of descendants takes each role from its queue once where the parents form no loop; it runs on
-- one more unit of fuel than there are roles, and says where it runs out.
--
-- A handler takes what gin has bound (an error where binding has refused the body or the query), since
-- gin is not part of the repository; so are the matching of paths and the JSON of an answer. An
-- identifier in a body or in a token is a natural number; one in a path may be negative, and is then
-- taken for 0, which no row has. A negative page or page size is taken for 0, as the code does.
-- Where ORDER BY leaves two rows equal, they keep the order of the table, which PostgreSQL does not
-- promise. A column of CHAR(64) pads what it stores with blanks. A refused INSERT leaves the sequence
-- of the identifiers alone, where PostgreSQL skips one: identifiers may have gaps.
--
-- Not modelled: the server's start and the pool of database connections, which are I/O, and concurrency
-- between requests: a handler runs to its end at one instant, with the goroutine that it starts. A
-- failed statement changes nothing.
pub mod Common
pub mod Config
pub mod Error
pub mod Handler
pub mod Http
pub mod Middleware
pub mod Model
pub mod Pkg
pub mod Repository
pub mod Router
pub mod Service
pub mod Strconv
pub mod Tests
pub mod World
