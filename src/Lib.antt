-- ===== src/Lib.antt =====
-- The402Machine sells short-lived web resources for Lightning payments: CATCH (an inbox for webhook
-- requests), WHISPER (an encrypted handoff that is read a limited number of times) and PULSE (a
-- heartbeat monitor); GATE sells authorizations of requests to other services. The server keeps all
-- state in PostgreSQL. This library models the core of it: each repository's methods are functions
-- on tables, which are lists of records, and each service's methods call them as the code does.
--
-- Base: tests, lists, tables with a primary key (Base/Table, Base/Keys), the expiry sweeps that the
--   products share (Base/Batch, Base/Due, Base/Progress), results that may be an error.
-- Domain: src/domain/*.ts, the plans with their limits and prices (Domain/Plans) and the states of a
--   CATCH resource (Domain/Lifecycle, of src/domain/catch-resource.ts).
-- Catch: src/storage/catch-repository.ts. Catch/Model has the rows, Catch/Store the methods
--   (provision, acceptEvent, setEventIpLocation, deleteEvent, expireDueResources, destroy,
--   getCredentialHashes), Catch/Listing getResource and listEvents, Catch/Usage and
--   Catch/Accounting the bytes that events use, Catch/History the sequences of calls.
-- Whisper: src/whisper/whisper-repository.ts, with the reads of a handoff in Whisper/Reads.
-- Pulse: src/pulse/pulse-repository.ts, with Pulse/Counts and Pulse/Heartbeats on its invariant and
--   its answers, and src/pulse/pulse-contract.ts in Pulse/Status.
-- Payment: Payment/Order is src/payment/payment-domain.ts. Payment/Delivery, Payment/Tables,
--   Payment/Orders and Payment/Dispense are src/payment/payment-repository.ts: createOrder,
--   attachInvoice, ensureInvoice and markPaid, then dispensePaidOrder and
--   consumePaymentChallengeAndDispense. Payment/Service is src/payment/payment-service.ts. The
--   product tables of Catch, Whisper and Pulse are part of its database, since a dispensed order
--   inserts into them. Payment/Bookkeeping, Payment/Steps and Payment/History carry the invariant.
--   Payment/Bolt11 is src/payment/bolt11-validation.ts, Payment/L402 src/payment/l402-protocol.ts and
--   Payment/Protocol src/payment/payment-protocol.ts. Payment/Samples has values for examples.
-- Gate: Gate, Gate/Authorize and Gate/Projects are src/gate/gate-repository.ts, Gate/Domain is
--   src/gate/gate-domain.ts and Gate/Service is src/gate/gate-service.ts. Gate/Credential is
--   src/gate/gate-payment-auth.ts, with its JSON in Json, and Gate/LightningAddress
--   src/gate/lightning-address-adapter.ts without createInvoice. Gate/Receipt is
--   src/gate/gate-receipt.ts without gateReceiptJwks; Gate/Service calls its signer as a parameter.
-- Tokens: src/security/tokens.ts and src/security/pulse-tokens.ts.
-- Http: src/app.ts. Http/RateLimit is consumeRateLimit, Http/Exchange the requests, the replies and
--   the guards that the routes share, Http/CatchRoutes, Http/WhisperRoutes and Http/PulseRoutes the
--   routes, which call the repositories of Catch, Whisper and Pulse and check tokens with Tokens.
--   Http/PaymentRoutes is paymentProtocolResponse and l402ProtocolResponse, which check a credential
--   with Payment/Protocol or Payment/L402 and then call Payment/Service.
-- Worker: src/expiry-worker.ts, a loop of batches for each job, and src/worker.ts in Worker/Jobs, which
--   runs the sweeps of all four repositories.
--
-- A method is one transaction: a function of the tables, of the clock readings that it makes and of
-- the ids that the database generates; a thrown error leaves the tables as they were. A lock of a
-- row is the order of the calls in a history; rows that `skip locked` passes over are a parameter
-- of the sweeps. A timestamp is its milliseconds since 1970. Numbers are natural numbers: the
-- counts and sizes of the code are non-negative and far below 2^53. A service's method returns the
-- tables beside its result, because its earlier transactions stay when a later one throws. Two
-- loops are on fuel that the code gives: the wait for an invoice in Gate/Service makes its 50 attempts,
-- and the worker's loop makes maxBatchesPerCycle batches. A route that awaits several calls takes a
-- clock for each of them, and a function for what other requests do before it.
--
-- Parameters: the payment provider, the cipher and JSON of the stored delivery, SHA-256, the match
-- of a regular expression, HMAC, base64url, the parser of JSON, the macaroon library, the invoice
-- decoder, the receipt signer, and the sizes that PostgreSQL measures. Unique constraints are modelled for idempotency keys, payment hashes and the order of a
-- challenge; the random public ids and tokens are taken not to collide. Of the CHECK constraints,
-- those of a monitor are tested where its settings are updated; that a new row passes them is a
-- hypothesis of the theorems that need it.
--
-- Not modelled: the quote routes of payments and the routes of GATE and of internal provisioning,
-- which wire what is modelled to requests; rendering, configuration and the set-up of the processes
-- (src/server.ts, src/config.ts); the making of invoices by the providers and the receipts of
-- payments; the statistics; the calendar arithmetic of the long CATCH plan.
pub mod Base
pub mod Catch
pub mod Domain
pub mod Gate
pub mod Http
pub mod Json
pub mod Payment
pub mod Pulse
pub mod Tokens
pub mod Whisper
pub mod Worker
