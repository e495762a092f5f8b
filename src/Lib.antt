-- ===== src/Lib.antt =====
-- Canals: the order backend, from the request of an order to the settlement of its payment.
--
-- The parts and how they interact. POST /orders runs a saga: it resolves the customer and the
-- products, allocates a warehouse (which reserves the stock in the same transaction that inserts the
-- order), charges the card outside any transaction, and settles the order. Two jobs, the reservation
-- reaper and the payment reconciliation, settle the orders that the saga leaves open; all three go
-- through the settlement service, which locks the order's row. The settlement calls the inventory
-- service, whose ledger of movements says what an order holds, and publishes order.confirmed. The
-- payment adapter goes through a circuit breaker and a retry loop; the provider that stands in for the
-- real one keeps one record for each idempotency key. Before the saga, the idempotency service inserts
-- a row for the request's key, and after it stores the answer there, success or error; a request that
-- finds the row is answered from it. GET /orders lists the orders page by page, each page's cursor
-- being the time and the id of its last row.
--
-- The files:
--   Prelude (and children): the library names, Boolean tests on native numbers, lists, texts,
--     integers, and tables by key. Prelude/Double: whole amounts as doubles, rounded to the nearest.
--   Errors: the error classes as values, with the result type of what throws.
--   Domain: src/domain. Status: the enums and order-status.transitions.ts; Money, Address, Order: the
--     value objects and entities. A mutating method returns the new order.
--   Store: src/infrastructure/database/entities, the rows and the database; Store/Mapper: order.mapper.ts.
--   Ports: src/domain/ports/payment-gateway.ts.
--   Allocation/Inventory: src/application/allocation/inventory.service.ts (reserve, release, commit)
--     and helpers/inventory.helpers.ts; its children hold the proofs. Allocation/Allocate:
--     allocate-inventory.use-case.ts.
--   Messaging/Publisher: src/infrastructure/messaging/event-routing.ts, pg-boss-event-publisher.ts.
--   Orders/Settlement: src/application/orders/order-settlement.service.ts (settle, confirmCaptured,
--     failDeclined, cancelUnpaid). Orders/Create, Orders/Create/Phases: create-order.use-case.ts.
--   Orders/Idempotency: src/application/orders/idempotency.repository.ts; its child Fingerprint is the
--     canonical form of a body, its child Service create-order-idempotent.service.ts (execute,
--     beginIdempotentRequest, runAndRecord) with what the controller or the filter then sends.
--   Orders/Reads: src/infrastructure/database/repositories/orders-read.repository.ts (findPage,
--     findItemsByOrderIds); Reads/Cursor: src/application/orders/helpers/cursor.helpers.ts;
--     Reads/Listing: list-orders.service.ts.
--   Http/Breaker, Http/Retry: src/infrastructure/http/circuit-breaker.ts, retry.ts. Http/Problem:
--     filters/problem-details.filter.ts (buildProblem, the body of the filter). Http/OrderResponse:
--     dto/order-response.dto.ts and the helpers of dto/helpers.
--   Http/Redaction: src/infrastructure/http/redaction.ts; its child Masking has the rules for texts.
--   Geocoding: src/infrastructure/geocoding. Normalisation: normalisation.ts; Cache:
--     caching-geocoding.provider.ts; Static: static-geocoding.provider.ts and us-cities.ts.
--   Payments/Card, Payments/Gateway: src/infrastructure/payments/card.ts, http-payment-gateway.ts, and
--     src/infrastructure/http/fetch-errors.ts.
--   PaymentsMock/Charges: payments-mock/src/charge.service.ts, with card.ts, hash.ts and types.ts.
--   Jobs: src/application/jobs/reservation-reaper.handler.ts and payment-reconciliation.handler.ts.
--   Samples and the modules named Tests: concrete data and runs.
--
-- How the state is modelled. A transaction is a function from the database to a result and the changed
-- database, or an error; row locks make the settlements of one order follow one another, so a race is
-- a sequence of them. What taking the inventory locks raises is an argument. An identifier is a
-- number, and two identifiers are equal as canonical texts are. The inventory is a function of
-- warehouse and product; movements stand newest first, which is the order of their ids. A time is a
-- number of milliseconds, a coordinate a number of millionths of a degree. The calls of boss.send are
-- recorded in order. A call of the breaker is two steps, before and after the operation that it
-- awaits. The retry loop runs on the number of attempts that its condition still allows, which is at
-- most maxAttempts. A client that follows cursors runs on fuel, one more than the orders that it can
-- get; the printing of a number runs on one more than the number. No other loop needs fuel. A request
-- with an idempotency key is two steps, up to the saga and from it on; a charge of the mock provider
-- is two, before and after its delay. The reads count microseconds, as the database does. Amounts
-- of money are doubles, so that a sum or a product past 2 ^ 53 is rounded, and throws if it is infinite.
--
-- Parameters: fetch, the clock, timers and random delays, randomUUID, the order number's sequence, the
-- geocoder, the warehouse selection query, and redaction; for the idempotency service the saga, sha256,
-- JSON.stringify, localeCompare (of which it is assumed that it is transitive) and isUUID; for the
-- geocoder the Unicode methods of strings and sha256 (its bytes are below 256); for the cursor base64,
-- the printing of times and ids and the casts (assumed to read what was written, of ASCII texts, uuids
-- and times before the year 10000). They are arguments of the definitions that use them.
--
-- Not modelled: overflow of the integer columns, the rounding of doubles other than in amounts of money
-- (coordinates are whole millionths of a degree, and a jitter is rounded down to them), the exponent
-- form of an amount of 10^21 dollars or more, log lines and traces, the metadata of a job, the
-- cycles of a redacted value, the detail of one order, the other jobs and the job runner, the Geoapify
-- adapter, the request checks, the distances of an answer (floating point), the HTTP server of the mock
-- provider, configuration and migrations. An outage of the table of idempotency keys is left out.
pub mod Prelude
pub mod Errors
pub mod Domain
pub mod Geocoding
pub mod Store
pub mod Allocation
pub mod Ports
pub mod Messaging
pub mod Orders
pub mod Http
pub mod Payments
pub mod PaymentsMock
pub mod Jobs
pub mod Samples
