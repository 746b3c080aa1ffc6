-- ===== src/Lib.antt =====
-- mcp-gw: what an MCP gateway allows and what it remembers of its users' provider connections.
--
-- A tool call reaches a wrapper server with a verified token. The token of a task names the tools that
-- the task may call (Task). The call is classified (for kubectl command lines: Cli) and put to the
-- policies (Policy), which look at the domains that mail goes to (Mail) and may ask a server that sees
-- redacted arguments only (Audit). The provider's credential comes from a connection, which the user
-- has authorized and whose lifecycle is kept in a store (Oauth).
--
-- Which file models which part:
--   Common, Json       Shared: Boolean tests, texts, lists, maps with texts for keys, results, and the
--                      values that a parser of JSON or YAML hands over. `Result` is a value or the
--                      message of the error that is thrown.
--   Audit              shared/audit/audit.ts, redactValue.
--   Mail/Domain        shared/policy/outbound-email.ts, canonical forms of domains.
--   Mail/Mailboxes     shared/policy/outbound-email.ts, splitMailboxes and
--                      recipientDomainsFromAddressList; Mail/Raw recipientDomainsFromRawMessage.
--   Policy             shared/policy/policy.ts, the types of a policy and CompositePolicy.
--   Policy/Scopes      matchesRule; Policy/Yaml the class YamlPolicy; Policy/Config (with Match)
--                      createYamlPolicyFromString and the readers below it; Policy/Opa
--                      OpaPolicyAdapter and createOpaPolicyFromUrl.
--   Oauth/Types        shared/oauth/connection-types.ts and store.ts, the records.
--   Oauth/Guard        shared/oauth/store.ts, connectionWriteGuard.
--   Oauth/States       shared/oauth/memory-store.ts, InMemoryOAuthStateStore.
--   Oauth/Store        shared/oauth/memory-store.ts, InMemoryOAuthTokenStore: accounts here, what is
--                      read and written of connections in Connections, credentials that wait to be
--                      revoked in Cleanup.
--   Oauth/Scopes, Oauth/Status, Oauth/Retry
--                      shared/oauth/connection-lifecycle.ts, its functions on scopes, statuses and
--                      retries.
--   Oauth/Lifecycle    shared/oauth/connection-lifecycle.ts, the class ConnectionLifecycle: what its
--                      transactions share; opening credentials in Envelope, the transaction of
--                      disconnect in Disconnect, what follows a revocation in Cleanup,
--                      activateAuthorizedGeneration in Activate, and renew in Renew, with
--                      activateRenewedGeneration in Renew/Commit and rejectRenewedGeneration in
--                      Renew/Reject; getActiveCredential without its renewal in Active. Steps holds
--                      what the proofs about transactions share.
--   Task, Task/Options packages/wrapper-kit/src/task-tool-authorization.ts.
--   Cli/Pack           servers/governed-cli/src/pack.ts, the records; Cli/Reader the readers of one
--                      field, Cli/Operations parseOperations, and Cli/PackFile parseCliPack.
--   Cli/Kubectl        servers/governed-cli/src/kubectl-classifier.ts.
--   Cli/Request        servers/governed-cli/src/http.ts, prepare, and what it uses of
--                      packages/wrapper-kit/src/governed-http.ts.
--   Cli/Jobs           servers/governed-cli/src/http.ts, the table of jobs of createCliRunHandler, and
--                      Cli/Jobs/Reachable the steps that requests and runs take on it.
-- The other children hold theorems, and those named Tests the theorems at concrete inputs.
--
-- State and time. A store is a record of maps, and an operation is a function from the store before to
-- the store after; the clock is an argument. The in-memory stores run each operation to its end before
-- the next one, so runs are sequences of operations (Oauth/Store/Consistent). Dates are numbers of
-- milliseconds. A transaction of the lifecycle is a function of the store that returns a value or the
-- category of an error, and the store after it; the in-memory store keeps what was written before an
-- error. The clock stands still within a transaction and is another one in the next. What is asked of a
-- provider happens between two transactions, so other operations may come between.
--
-- Code that is not in the repository is a parameter: the YAML parser, the conversion of a domain to
-- ASCII, the decoding of a raw message, the hash of a state, the HTTP call to a policy server, the operation that is retried, encryption and
-- decryption of credentials, the answers of a provider, fresh identifiers, and what becomes of a policy
-- server's reason that is not a text. None of
-- the theorems supposes anything of them.
--
-- Bounds. Every loop is a recursion on its input. The retries are counted down from the number that is
-- allowed. The loop that makes room for a job has as many rounds as there are jobs, each of which drops
-- one.
--
-- Texts are sequences of code points. Lower case is the ASCII one, where the source's values are ASCII
-- domains, resource names and patterns; `trim` takes off the characters that JavaScript takes off.
--
-- Not modelled: HTTP servers and clients, processes, files, SQL, encryption, generated catalogs,
-- deployment; the decoding of raw mail messages, the calls of the connection lifecycle to a
-- provider and its workers, the lock of a principal, and the authorization broker.
pub mod Common
pub mod Json
pub mod Audit
pub mod Mail
pub mod Policy
pub mod Oauth
pub mod Task
pub mod Cli
