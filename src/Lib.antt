-- ===== src/Lib.antt =====
-- HopDrop: carriers with luggage to spare take the packages of senders along. This library models
-- the core of its backend (backend/src), services over a document store (MongoDB), Redis, and an
-- outbox of events, and proves what they promise.
--
-- The state. Store has the collections of the database, the entries of Redis, the messages that
-- leave the backend, the time, and the outcomes of the database transactions to come. A handler is
-- an action on it: a function from a store to a result and a store. A throw is a result, and what
-- was written before it stays written. `await` is sequencing: the requests are steps of their own,
-- and a step is not interrupted. Collection has the calls of the driver on documents; a query is a
-- Boolean test. Every `save` writes the changed paths of its document, as mongoose does, which
-- stores no object without fields either (`minimize`, its default) and drops paths that a schema
-- does not have.
--
-- The files, by the part of the program that they model:
--   Common, Json: shared helpers, integers, errors (utils/ApiError.ts), JSON values
--   Model: the documents (backend/src/models)
--   Env: the settings (backend/src/config/env.ts) and the deployment of the database
--   Store: the state, actions on it; Store.Keeps: what an action keeps
--   Collection: documents by identifier; Laws and Queries are its laws, Sorting the orders and pages,
--     Arranged the sorts that do not depend on how the database comes upon the documents
--   Outbox, Outbox.Relay: backend/src/services/outbox.service.ts (appendOutboxEvents,
--     claimOutboxBatch, releaseOutboxEvent, ...) and outboxRelay.service.ts (flushOutboxBatch, ...);
--     Outbox.Claim, Outbox.Health and Outbox.Lifecycle are the proofs
--   Notify: backend/src/services/notification.service.ts and realtime.service.ts
--   Transactions: backend/src/utils/mongoTransactions.ts (runInTransaction); Transactions.Atomic and
--     Transactions.Retry are the proofs
--   Lock: backend/src/utils/distributedLock.ts (acquireLock, releaseLock, withLock); Lock.Exclusion is
--     the proofs
--   Otp: backend/src/services/otp.service.ts (generateOTP, verifyOTP)
--   Escrow: backend/src/services/escrow.service.ts (holdFunds, releaseFunds)
--   MatchService: backend/src/services/match.service.ts. Status has updateMatchStatus, Confirm the
--     proposal (carrierAccept, senderConfirm, ...), Handover the codes (generatePickupOtp, ...),
--     Feedback ratings and disputes, Run the sequences of requests; Effects and Evidence are proofs
--   Pricing: backend/src/utils/pricing.ts (calculateQuote). Projections has projectTier,
--     Earnings estimateCarrierEarnings and Estimate estimatePricing of
--     backend/src/services/pricing.service.ts; Fairness and
--     Projections.Tiers are proofs
--   Payment: backend/src/services/payment.service.ts (orders, confirmations, the webhook); Trust and
--     Once are proofs
--   Delivery: backend/src/services/delivery.service.ts. Requests has createDeliveryRequest,
--     updateRequest and cancelRequest, Matches getRequestMatches; Delivery.Refund is the proofs
--   Messages: documents in the payload of an event
--   TripService: backend/src/services/trip.service.ts. Trips has createTrip, updateTrip and
--     cancelTrip, Search listTrips, Deposits the orders and confirmDeposit; Custody and Paging are
--     proofs
--   Matching: backend/src/services/matching.service.ts (rankTripsWithRoutingSearch and
--     rankRequestsWithRoutingSearch). Proposals has createMatchProposal, Search has findMatches and
--     matchTripAgainstPendingRequests; Ranking, Candidates, Growth, Fitness and Pairs are proofs
--   Queues: backend/src/queues. Rematch has processSlaRematchAudit, Reconciler
--     processPaymentReconciliation, Workers the workers of the jobs, Scan the walk of otpCleanup.ts;
--     Rematch.Outcome is the proofs
--   Sanitize: backend/src/utils/sanitize.ts (sanitizeNoSql, and escapeRegex in Escape);
--     Sanitize.Clean is the proofs
--   Accounts: backend/src/services/auth.service.ts and googleAuth.service.ts (Sessions) and
--     user.service.ts (Profile); Accounts.Revoked is the proofs, Accounts.Text the texts
--   Http: backend/src/middleware (Shedder is loadShedder.ts, Guards the checks of a request, the
--     answer to an error and the cache) and config/db.ts (Start); Shedder.Refinement is the proofs
--   Sockets: backend/src/config/socket.ts, with Sockets.Privacy as its proofs; Gateway is
--     services/realtime-gateway, with Gateway.Addressed as its proofs
--   Consumers: services/matching-orchestrator (Orchestrator), search-indexer (Indexer),
--     notification-consumer (Notifier) and analytics-pipeline (Funnel), which read the events of the
--     backend; Dispatch and Triggers are proofs
--   Maps: backend/src/services/maps.service.ts (normalizeText, tokenizeText, dedupeCandidates);
--     Maps.Clicks has loadClickSignals with its proofs
--   Reports: backend/src/services/job.service.ts (Jobs) and analytics.service.ts (Analytics)
--   Tests: runs on a small store
--
-- How they interact. The match service calls the lock, the codes, the escrow and the notifications;
-- the payment service calls the escrow; a request is quoted by the pricing; the escrow runs in a
-- database transaction; messages go to the outbox, where the relay takes them, or are published at
-- once, by the settings. Over Kafka the events reach the consumers, which ask the backend for searches
-- and publish what the outbox held; the gateway sends it to the sockets. A request without matches,
-- a paid deposit and the jobs run the searches of the matching.
--
-- Numbers. Amounts are whole paise, weights grams, averages of ratings hundredths of a star, times
-- milliseconds. `Math.round(a / b)` is one division of integers with halves up: where the code's
-- floating-point factors land next to a half, the code may round the other way. A wallet is an
-- integer, since `$inc` can take it below 0. Subtraction of natural numbers stops at 0, where the
-- code writes Math.max with 0. Identifiers are numbers.
--
-- Bounds and fuel. runInTransaction is a recursion on the attempts left, five as in the code; the
-- printing of a code runs on fuel 7, and a code has six digits; claims recurse on the batch size.
-- The walk of the audit of the codes takes as much fuel as there are pages; the number in the text
-- of a lock's error is printed on fuel for more digits than it has.
--
-- Parameters. bcrypt is the record Otp.Bcrypt with two laws: a text is accepted against its own
-- hash, and no other text is. The digests of the payment provider are the record Payment.Provider,
-- with no law. Kafka is the function `send` of the relay. The answers of the payment provider and
-- of the ride booking, the database's search by the name of a city, random draws and lock tokens
-- are arguments, and so are the answers of the routing search and of Google, and the order in which
-- the database comes upon the trips of a sorted query. The signing of tokens is the record
-- Sessions.Jwt with one law: a token is verified until it expires. How a database transaction ends
-- is an input, Store.faults: a commit, a failure with a rollback, or a commit whose answer is lost.
--
-- Not modelled: the calls of the map providers and the scores of places, the routes of the HTTP
-- layer with their validators, metrics, and the front ends. The rows of processed webhooks end by
-- the sweep of their TTL index, an operation of its own (Payment.Webhook.expire_webhooks). A payout
-- is modelled for a carrier and a sender who are two accounts, as the proposals have them. Of the
-- webhook a body is a number with its event, so the parsing of JSON is left out, and so are the
-- waits between attempts.
pub mod Common
pub mod Json
pub mod Model
pub mod Collection
pub mod Env
pub mod Store
pub mod Outbox
pub mod Notify
pub mod Transactions
pub mod Otp
pub mod Lock
pub mod Escrow
pub mod MatchService
pub mod Pricing
pub mod Payment
pub mod Messages
pub mod Delivery
pub mod TripService
pub mod Matching
pub mod Sanitize
pub mod Sockets
pub mod Consumers
pub mod Maps
pub mod Reports
pub mod Queues
pub mod Accounts
pub mod Http
mod Tests
