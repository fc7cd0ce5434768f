-- ===== src/Lib.antt =====
-- Verification of the kiosk project: the rules that a self-service printing kiosk runs on.
--
-- A customer opens a session at a kiosk, uploads documents, chooses settings, sees a quote, pays,
-- and the kiosk prints. The session's state machine orders these steps; the settings are brought
-- into a normal form that decides the sides and sheets of a job; pricing turns those into money;
-- a device's result is settled into success, refund or a person's decision; retention deletes what
-- the session left. The shared transactions of the database package tie these together: the end
-- of a session releases its payment, retires its quote, schedules its documents for deletion and
-- revokes its credentials, and a completed print takes its sheets from the kiosk's tray. The payment
-- service reduces a provider's callbacks on the same tables: it pays for a session, or closes the
-- payment and records what is owed back. A paid job is dispatched to the kiosk as a command, which
-- the kiosk's agent holds under a lease while it prints; its report, an exhausted lease or the job's
-- deadline settles the job, whichever commits first. Print adapters check a submission,
-- write it down in a journal before the device has it, and speak to a device in the IPP wire format.
--
-- Which file models which part (paths from the root of the repository):
--   Domain/Session        packages/domain/src/session.ts: transitionSession and its table
--   Domain/PrintJob       packages/domain/src/print-job.ts: settlePrintDeviceResult
--   Domain/Retention      packages/domain/src/retention.ts: checkpoints, grace, retry delays
--   Domain/ObjectKeys     packages/domain/src/retention.ts: sessionObjectPrefixes and its inverse
--   Domain/PageRanges     packages/domain/src/print-settings.ts: parsePageRangeText,
--                         mergePageRanges, formatPageRanges, countSelectedPages
--   Domain/Settings       packages/domain/src/print-settings.ts: normalizePrintSettings and
--                         buildSettingsManifest
--   Domain/Canonical      packages/domain/src/print-settings.ts: canonicalManifestJson
--   Pricing               packages/pricing/src/index.ts: applyBasisPoints, selectPricingRule,
--                         calculateQuote and its assertions
--   Database/Paper        packages/database/src/kiosk-paper.ts
--   Database/Payments     packages/database/src/session-payments.ts
--   Database/Quotes       packages/database/src/session-pricing.ts
--   Database/Cleanup      packages/database/src/session-cleanup.ts
--   Database/PrintJobs    packages/database/src/print-jobs.ts: recordPrintJobEvent,
--                         recordPrintFailureCompensation and, in Database/PrintJobs/Settle,
--                         applyPrintJobSettlement
--   Printer/Capabilities  packages/printer-adapters/src/capabilities.ts
--   Printer/Submission    packages/printer-adapters/src/submission.ts: assertSubmittable and
--                         withHonestConfidence
--   Printer/Journal       packages/printer-adapters/src/operation-journal.ts: DeviceOperationJournal
--   Printer/JobName       packages/printer-adapters/src/operation-journal.ts: deviceJobName and
--                         parseDeviceJobName
--   Printer/Ipp           packages/printer-adapters/src/ipp/encoding.ts: encodeIppRequest,
--                         decodeIppResponse and the attributes
--   Providers             packages/payment-adapters/src/types.ts: what a callback carries
--   Api/Ledger            services/api/src/modules/payments/service.ts: the rows and, in
--                         Api/Ledger/Updates, the writes
--   Api/Webhook           services/api/src/modules/payments/service.ts: reduceWebhookEvent and, in
--                         Api/Webhook/Handler, handleWebhook
--   Api/Transactions      services/api/src/modules/sessions/transactions.ts
--   Api/Throttle          services/api/src/modules/sessions/rate-limit.ts
--   Api/PrintAgent        services/api/src/modules/print-jobs/agent-service.ts: the claims of a
--                         kiosk and, in Api/PrintAgent/Reports, its reports
--   Worker/DispatchPrint  services/worker/src/jobs/dispatch-print.ts: the dispatcher and, in
--                         Worker/DispatchPrint/Reconcile, what it settles itself
--   Printing              the life of a print job: any order of the transactions of the two
--   Base                  numbers, lists, texts, maps, errors and sorting that these share
-- A function keeps its name in snake case; a definition that models part of a function's body
-- stands just above it. Thrown errors are values of `Result`. A table is a list of rows, and a
-- transaction a function on the tables that it touches. Each component's Examples module runs it
-- on concrete data.
--
-- Numbers: a count that the source has checked to be natural is a native number; what may be
-- negative is an integer of Base/Int. The source refuses what is not a safe integer, and the model
-- keeps these tests. Texts that the code walks are lists of UTF-16 code units.
--
-- Fuel: the decimal printing of a number is given one more than the number, which is enough since
-- each step divides by ten; the decoder of IPP is given one more than there are bytes, since each
-- step takes one. The loop of a callback has the five attempts of the source.
--
-- Parameters: the throttle takes the framework's failure counter and the answer of the credential
-- lookup, capability mapping the lower-casing of a locale, and canonical texts those of numbers and
-- strings; nothing is assumed of them. IPP takes the platform's text encoder and decoder, of which
-- the round trip needs that the texts of the request come back and that the empty one has no bytes.
-- A callback takes the event that the provider's adapter verified, fresh identifiers, and, for each
-- attempt, whether the database lets it commit. The dispatcher takes whether the queue accepts a job.
-- A submission takes the platform's test for an absolute path, and the journal the values that
-- `JSON.parse` makes of its files.
--
-- Not modelled: the digest of a capability snapshot, the details that errors carry beside their
-- code, dates outside the range of `Date` where a transaction adds to one, and isolation between
-- transactions, which the database serializes. Audit events keep of their metadata the payment
-- only. The other handlers of the services, the applications and the other device protocols have no
-- model here.
pub mod Base
pub mod Domain
pub mod Pricing
pub mod Database
pub mod Printer
pub mod Providers
pub mod Api
pub mod Worker
pub mod Printing
