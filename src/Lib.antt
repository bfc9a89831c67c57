-- ===== src/Lib.antt =====
-- A model of the invoicing system's core: the amounts, dates and payment references, the
-- invoices, customers and templates of the billing service with everything that changes them, the
-- nightly job, the payments service from the bank's reports to the events that billing books, the
-- delivery of these events, and the logins, tokens and sessions of the auth service.
--
-- The parts and their files:
-- - Prelude: tests on numbers, lists of rows with the counterparts of SELECT, UPDATE and DELETE, integers.
-- - Shared/Ocr and Shared/SwedishId model packages/shared/src/ocr and swedish-id; Shared/Errors the error
--   classes of packages/shared/src/errors; Shared/Text the texts these walk; Shared/Tx what runs inside
--   `sql.begin`: a function from the database to a result and the new database, where an error loses
--   all writes.
-- - Billing/Vat and Billing/Dates model services/billing/src/domain.
-- - Billing/Store has the rows of the tables and the database as one record of lists;
--   Billing/Invoices/Repository each query of services/billing/src/invoices/repository.ts as an operation
--   on it, under the name of its method.
-- - Billing/Invoices/Lines, Service and Cron model services/billing/src/invoices/services.ts and mappers.ts:
--   `create_in_tx`, `update`, `remove`, `send_in_tx`, `credit_in_tx`, `create_reminder_in_tx`,
--   `generate_from_template_in_tx` and `mark_overdue`.
-- - Billing/Invoices/Templates models the calls on templates of the same services.ts, Templates/Due what
--   comes of a template that they wrote. Deleting a template takes it off the invoices that came from it, as
--   the foreign key does; Billing/Calls has these calls too, Refinement/Templates relates them to the ledger.
-- - Billing/Customers models services/billing/src/customers, Customers/Calls any sequence of its writing
--   calls, Effects what each comes to, Sound, Laws and Kept what they keep, Lookup the search by personal
--   number. `create_in_tx` of an invoice makes its customer with it.
-- - Billing/Paging has the pages of the lists, ordered and cut as the queries do it.
-- - Billing/CompanySettings, Payments, Deliveries and Automation model the folders of services/billing/src
--   of these names. Payments and Deliveries change the invoices' status and delivery, Automation calls
--   the operations of Cron, each in a transaction of its own.
-- - Billing/Invoices/Ledger is the specification: the invoices, number series, the owners of templates and
--   the ids as a small state
--   with a step relation, each step labelled with its tenant. Billing/Invoices/Refinement relates the
--   operations to it; Ledger/Series and Ledger/Unbroken are about the invariant of the series,
--   Ledger/Frozen about sent invoices, Ledger/Tenants about what is another tenant's.
-- - Billing/Idempotency models services/billing/src/idempotency.ts for any work in a transaction, with the
--   expiry of keys and their clean-up in automation/repository.ts; Idempotency/Stored is about the rows.
-- - Billing/Invoices/Resolve models `resolveByOcr` and `resolveById` of the invoices' services, Billing/Consumers
--   the handlers of messages in payments/consumer.ts and deliveries/consumer.ts; what an attempt's work comes
--   to and what other transactions do before the next one are arguments.
-- - Shared/Outbox models the publisher of packages/shared/src/outbox, Outbox/Batch and Outbox/Order are about one batch.
-- - Payments/Store, Transactions, Matching, Admin, Stripe and Import model the folders of services/payments/src
--   of these names: the rows, the intake of bank transactions, `match`, the queue of payments that
--   people decide on, payments by card and the import of a file. Payments/Books says how transactions,
--   checkout sessions and events belong together, and Payments/Books/Steps is the relation of all that
--   may happen to them, each committed statement or transaction a step. Payments/Deliveries is about
--   repeated and failed deliveries, Payments/Settlement about payments and billing together, with
--   billing-client.ts between them.
-- - Auth/Throttle models services/auth/src/throttle.ts and `login` of auth/services.ts; Auth/Tokens the tokens of
--   auth/repository.ts, Auth/Sessions the calls of auth/services.ts that use them up. A refresh reads first and
--   rotates in a transaction: what others do in between is an argument. Auth/Invites models `register`,
--   `createCustomerInvite` and `acceptCustomerInvite` of the same file, Invites/Calls any sequence of them and
--   Invites/Sound the state that they keep.
-- - Billing/Calls puts the operations of billing together, also those on customers and templates: any sequence of calls,
--   each committed or rolled back.
-- - Apps/OffsetList and Apps/LiveVat model useOffsetList.ts and vat.ts of apps/backoffice/src/lib: a list
--   read page after page, and the amounts in the form of an invoice. They use the service's definitions.
--
-- What is simplified: a number stands for a UUID, which is only compared; a quantity is a number of
-- thousandths; quotients of amounts are exact fractions until they are rounded; amounts in answers stay in
-- öre; columns with times of writing and the metadata of audit entries are left out; a reminder's first line
-- does not name the reminded invoice's number; the current date is an argument. Rows are locked FOR
-- UPDATE in the source, so transactions on the same rows run one after another, as they do here; an invitation
-- reads before its transaction without a lock, and runs alone here. The unique constraints on invoice numbers
-- are not part of the model. `createCheckoutSession` asks and writes outside a transaction and is one step here.
--
-- Payments asks billing by a client that is an argument and may fail; Payments/Settlement is where it is billing's
-- own code. What JavaScript's Number and Date and node's hash give is an argument of the import, what the
-- broker answers of the publisher and the consumers, how a password is checked of the login, encryption, the HMAC
-- and the order of names of the customers, the spelling of addresses of the invites. Payments/Books,
-- Auth/Sessions for a refresh and Billing/Consumers between attempts have interleavings; elsewhere operations run one
-- after another.
--
-- Bounds and fuel: the loop over one template runs at most 36 times, as in the source; following the reminders
-- of an invoice runs on one round more than there are invoices, since none is visited twice; reading
-- a list asks for at most one page more than there are rows; a message
-- is delivered three times, the source's limit; printing a number runs on as much
-- fuel as the number itself, which is more than it has digits. Everything else is structural recursion.
--
-- Not modelled: the lists of invoices and deliveries and the views for other services, which only read, the HTTP
-- layer with its signatures and request schemas, the clean-up of the outbox, the portal of billing,
-- the views of users, the issuing of sessions and BankID of the auth service, the Python service
-- documents and the rest of the web applications.
pub mod Prelude
pub mod Shared
pub mod Billing
pub mod Payments
pub mod Auth
pub mod Apps
