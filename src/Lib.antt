-- ===== src/Lib.antt =====
-- The core of the PropMatch backend: payments, the quota of an owner, the configuration of prices and
-- plans, and the way from an offer over a conversation to an agreement and a lease. An owner pays for a product of the catalogue; the provider's
-- signed callback, or the hourly reconciliation, settles the order once and delivers a plan, an
-- add-on grant or a boost; the quota service then spends what was delivered.
--
-- The parts, and the code that each one models:
-- - Prelude: tests, lists of rows and predicates on them. A table is the list of its rows;
--   `findUnique` and `findFirst` are the first row that fits, with `orderBy` the first of the
--   smallest or the last of the greatest key, and `updateMany` is an update of every row that fits
--   with their count.
-- - Calendar: dates in milliseconds since 1970 and the UTC calendar of ECMAScript, with the rollover
--   of `setUTCMonth` and `setUTCFullYear` (31 January plus a month is in March).
-- - Catalog: src/payments/pricing.catalog.ts.
-- - Store: the rows of prisma/schema.prisma that these services share, and the requests as actions on
--   them. `$transaction` rolls back what a throwing callback has written.
-- - Config: src/commercial-config/commercial-config.service.ts (`getProduct`, `getPlanAllowances`,
--   `checkoutSnapshot`, `parseSnapshot`, `updateProduct`, `updatePlan`).
-- - Campaigns: the queries on boost campaigns that payments and quota share.
-- - Quota: src/quota/quota.service.ts. Quota/Period is `ensureCurrentPeriod`, Quota/Consumption the
--   consumption of offers and optimizer uses, Quota/Capacity the listing capacity, `getQuota` and the
--   hourly enforcement, Quota/Boosts the credits of a plan;
--   Quota/Capacity/Enforced is about what the enforcement leaves.
-- - Payments: src/payments/payments.service.ts. Payments/Settlement is `checkout`, `handleWebhook`
--   and `processSuccessfulPayment` up to the delivery, Payments/Delivery the delivery, and
--   Payments/Reconcile the hourly job.
-- - Text: strings as UTF-16 code units, for the comparison of currencies; `toUpperCase` changes the
--   Latin letters only.
-- - TenantOffers: src/tenant-offers/tenant-offers.service.ts. TenantOffers/Moves is the state machine of
--   an offer, TenantOffers/Settled its acceptance, TenantOffers/Market and TenantOffers/Steps what all
--   requests keep.
-- - Leases: src/lease-contracts/lease-contracts.service.ts. Leases is what the handlers read and check,
--   Leases/Handlers the handlers, Leases/Final, Leases/Drafts and Leases/Approved what no request can
--   change, Leases/Written what two of the writes do.
-- - Offers: src/offers/offers.service.ts. Offers is the handlers, Offers/Score the score of
--   src/offers/match-score.util.ts and its reasons, Offers/Inbox the listings; Offers/Created,
--   Offers/Accepted, Offers/Closing and Offers/Listed are about a new offer, its acceptance, the other
--   answers, and the listings. A unit of quota is spent through Quota/Consumption.
-- - Messages: src/messages/messages.service.ts. Messages is the agreement that ends a match, which
--   closes offers of both kinds, Messages/Chat the messages, Messages/Crypto their stored form;
--   Messages/Rows, Messages/Agreement and Messages/Confirmed are about the agreement, Messages/Sent and
--   Messages/Edited about messages.
-- - Accounts: src/auth/auth.service.ts, src/auth/strategies/jwt.strategy.ts,
--   src/users/users.service.ts, src/common/suspension.ts and the guards of roles and of verified
--   users. Accounts is `signIn`, `refresh`, `validate` and the profile, Accounts/Codes the
--   registration, the codes and the reset of a password, Accounts/Reactivation
--   `requestReactivation`; Accounts/Sessions and Accounts/Guesses are about who is let in and about
--   guessing.
-- - Support: src/customer-support/customer-support.service.ts. Support is what changes a ticket,
--   Support/Detail what is shown of one and the queue of the administrators; Support/Private and
--   Support/Escalated are about internal notes and about the retries of an escalation.
-- - Properties: src/properties/properties.service.ts. Properties is `create` and the other changes of
--   a listing, Properties/Editing `update` with its pictures, Properties/Viewing `getPropertyById`;
--   Properties/Capacity is about the limit on active listings, which Quota/Capacity gives, and
--   Properties/Contact about who is shown the contact of an owner.
-- - Reviews: src/reviews/user-reviews.service.ts, the ratings of the parties of a lease;
--   Reviews/Once is about the one review of a party.
-- - Summaries: src/properties/mappers/property.mapper.ts, the card and the detail of a property that
--   the answers show.
-- - Tests: runs on a small shop, and the theorems applied to it.
--
-- The choices of the model. An identifier is a number, since identifiers are only compared. A request
-- reads the clock once. Requests run one at a time, except where a definition takes the changes of
-- other requests as an argument. A message in Arabic is given in English. A price is a whole number of
-- pounds, as the catalogue and the forms have it. A stored snapshot has the fields of its type, so
-- `parseSnapshot` has the test of the kind left. The answers of the payment provider are arguments:
-- the order of a checkout, the parsed callback with the validity of its signature, and the state of a
-- stale order. Hashes and the cipher of messages are parameters, a signed token is its payload, and
-- what a handler draws at random is an argument. No definition runs on fuel. `year_down` and `month_down` walk down from a bound that
-- the date gives.
--
-- Not modelled: HTTP routing and validation of forms, the HMAC and HTTP calls of
-- src/payments/providers/paymob.service.ts, logging, the signing and expiry of tokens, the reader `getCatalog`, the
-- listings of tenant offers and of leases, the similarity of two embeddings, which is an argument, and
-- the other services.
pub mod Prelude
pub mod Calendar
pub mod Catalog
pub mod Store
pub mod Campaigns
pub mod Config
pub mod Text
pub mod Quota
pub mod Payments
pub mod TenantOffers
pub mod Summaries
pub mod Offers
pub mod Messages
pub mod Accounts
pub mod Support
pub mod Properties
pub mod Reviews
pub mod Leases
pub mod Tests
