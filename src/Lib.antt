-- ===== src/Lib.antt =====
-- The control plane and the request path of Joysteed MaaS, modelled for proof.
--
-- The program runs many tenants on one gateway. A registry (internal/controlplane) keeps each tenant
-- and its lifecycle; billing (internal/billing) keeps plans, prices, prepaid accounts, usage and
-- invoices; role-based access (internal/rbac) decides what a principal may do, and the portals'
-- routes (internal/portal) ask it on every call; a tenant's members (internal/member) hold its roles
-- and log in; its virtual keys (internal/virtualkey) are kept in a table, from which a projector brings
-- each change to the data plane; the authentication hooks (plugins/tenantauth) bind each request to
-- the tenant of its key; the audit trail (internal/audit) keeps who did what, without credentials; the
-- fairness semaphore (internal/fairness) bounds the requests that a
-- tenant and a provider have in flight. All of them stand on a SQL database or on Redis, and each
-- request asks several of them in turn.
--
-- Which file models what:
--
-- Base and its children: the Go types and library functions that the source uses everywhere.
--   Base.Int is int64 with its wrap-around, Base.Text the strings as lists of code points with
--   strings.TrimSpace, HasPrefix, HasSuffix, Contains and IndexByte, Base.Outcome Go's pair of a
--   value and an error, and the transactions.
-- Registry: internal/controlplane. Status has tenant.go's statuses and lifecycle.go's diagram
--   (can_transition, terminal_status), Store the operations of store.go under their own names
--   (create, update_profile_tx, transition_tx, start_trial), Reads its lists. Lifecycle and Invariant
--   hold the proofs.
-- Billing: internal/billing/billing.go. Sku has prices and the matching of models, Account the
--   accounts and holds (reserve, release, capture), Usage the usage ledger (record_usage), Invoice
--   the periods and invoices (issue_invoice), Plan the plans, Allowance the admission test
--   (check_allowance) and the models that a tenant sees (current_model_policy).
-- Rbac: internal/rbac/rbac.go, the principals, the three tables and authorize. Matching, Isolation,
--   Scope and Effect hold the proofs.
-- Portal: internal/rbac/session.go and internal/portal/routes.go, a session's claims and the gate
--   that each portal call passes (authorize_route).
-- Configbus: internal/configbus, outbox.go (publish) and reconcile.go (observe, reconcile): the numbered
--   changes of each tenant's configuration and the fence that a node keeps; Published has the generation
--   of a publication.
-- Modelaccess: internal/modelaccess/filter.go, the model list that a tenant sees.
-- Sessions: internal/authn/session.go, the table of sessions and what an access token opens.
-- Member: internal/member/member.go, the table of members. Roles has the four roles and the ids of a
--   tenant's own, Seed the rows that they start with (ensure_tenant_roles), Create and Update the calls
--   (create, update, authenticate); Seats, Steps, Owner, Created, Safety, Alone and Answers hold the
--   proofs.
-- Virtualkey: internal/virtualkey, store.go (create_tx, revoke_tx, retry_tx, reveal_tx); Cipher has
--   cipher.go, Projector the passes of projector.go (project_tenant) and Sanitized the text of a failure
--   that it stores. The other children hold the proofs.
-- Tenantauth: internal/tenantauth/resolver.go, the key and the tenant that a credential resolves to
--   (resolve_virtual_key), over internal/tenant/binding.go's RunAcrossTenants; Plugin has the hooks of
--   plugins/tenantauth/plugin.go (pre_hook) and SetResolvedTenant of internal/tenant/context.go. Lookup,
--   Admits, Passes, Bound and Headers hold the proofs.
-- Audit: internal/audit/audit.go, the table of entries (append_tx, list_tenant); Redact has the redaction
--   of a snapshot (redact_value). Hides and Filed hold the proofs.
-- Fairness: internal/fairness/semaphore.go, the three Lua scripts and the calls that run them.
-- Quota: internal/quota/counter.go, the spent amounts in Redis that two Lua scripts charge
--   (charge, charge_once).
-- Tenantusage: plugins/tenantusage/plugin.go, what stands before and after each request to a provider
--   (pre_llm_hook, post_llm_hook), over billing's tables, the counter and the semaphore together.
--   Settle has the settlement and the lease's renewals, Response the usage that a response names.
--
-- How code became definitions. A table is the list of its rows; a unique key refuses an insert as the
-- schema says. A SQL statement may fail: every call takes a schedule that says which of its
-- statements fail (past the end of the schedule the database answers), and a transaction that ends in
-- an error leaves the tables as they were. A call reads its clock once, where the source may read it
-- twice in one transaction; times are natural numbers, and 0 is Go's zero time. Where the database
-- compares by LOWER or orders by ORDER BY, the function is a parameter. An enumeration that Go spells
-- as a string is a data type with a constructor for any other text. Sums in SQL fail where they leave
-- the range of a bigint. Loops are recursions on their lists, so no definition takes fuel. A script in
-- Redis is one step, over an interface of sorted sets that states what the commands promise; a call's
-- reply may be lost after the script has run. Digests and random tokens are parameters, and so are the
-- cipher and the data plane, whose calls on a key may fail.
--
-- Not modelled: nil receivers and nil transactions, the texts of errors, context cancellation, schema
-- migrations, row locks (a transaction is one step, as it is where the rows that it reads are locked;
-- a call on the data plane inside one is not undone with it), and the parts of the repository that are
-- not named above: the rest of internal/tenant (the scoped store), the guardrails, the target that
-- writes keys into the gateway's own store, the request log, the HTTP handlers and the command line,
-- and the user interface.
mod Base
pub mod Registry
pub mod Billing
pub mod Rbac
pub mod Portal
pub mod Fairness
pub mod Sessions
pub mod Configbus
pub mod Modelaccess
pub mod Quota
pub mod Tenantusage
pub mod Member
pub mod Virtualkey
pub mod Tenantauth
pub mod Audit
