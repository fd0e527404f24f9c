-- ===== src/Lib.antt =====
-- A model of the BookingQube backend, a NestJS service over Postgres and Redis that sells tickets,
-- with proofs about the parts that keep its promises: stock, holds, payments and their confirmation,
-- promo codes, logins, one-time codes, sessions, refunds at the counter, the planning of sessions, and
-- a report.
--
-- Inventory (src/modules/inventory). An item's stock is a row of the table `inventory_items` and,
-- while Redis is there, a hash `inv:<id>` that Lua scripts change. Inventory.Model is the state of
-- both, Inventory.Deltas `mergeDeltas` and `sortDeltas`, Inventory.Scripts the four scripts of
-- inventory.scripts.ts, Inventory.Statements the SQL of `reserveInPostgres`, `releaseInPostgres`,
-- `convertInPostgres` and `releaseSoldInPostgres`, and Inventory.Service the methods of
-- `InventoryService` over both stores. The proofs stand in the modules below these.
--
-- Checkout (src/modules/checkout). Checkout.Records is the rows of orders, holds, payments, sessions
-- and recoveries that the parts below share, and Checkout.PaidRows the updates of them.
-- Checkout.HoldExpiration is `HoldExpirationService` and the job `processHoldExpire` of
-- src/modules/queues/booking-jobs.service.ts; Checkout.Release is `releaseHold` of
-- checkout.service.ts; all three call the inventory's `release`. Checkout.Recovery and Checkout.Upsert
-- are payment-recovery.service.ts. Checkout.Settlement and its children Tokens and Amounts are
-- payment-verification.ts. Checkout.Hosted is hosted-payment.helpers.ts with the search for an order's
-- session in checkout.service.ts, Checkout.Verification its `verifyGatewaySettlement`, and
-- Checkout.Confirmation its `confirmPayment`, which finds the session, has the payment verified, calls
-- the inventory's `reserve` and `convert`, writes all rows in one transaction, and calls the
-- recovery's `resolve` or, where no stock is left, `upsertOpen`. Checkout.Callback is
-- qpay-callback.security.ts and Checkout.Redirect frontend-origin.ts. Checkout.OfflinePayment is
-- offline-payment.helpers.ts, with `createOfflinePaymentLegs` in its child Legs.
--
-- Promo codes. Promo is the tables and what the preview and the booking share, Promo.Basket and
-- Promo.Preview are the preview of a discount (src/modules/promocodes), Promo.Charge the discount that
-- a booking takes off and Promo.Redemption the slots in Redis and the redemptions in Postgres (both of
-- src/modules/checkout/checkout.service.ts), and Promo.AdminInput and Promo.Admin
-- src/modules/admin-promocodes. Promo.Agreement compares the preview with the charge;
-- Promo.Admin.Sound goes from the checks of the administration to what a booking is charged.
--
-- Auth. Auth.Lockout is src/common/auth/login-lockout.service.ts, Auth.Otp is `OtpService` and
-- Auth.Session `CustomerSessionService`, both of src/modules/auth. Auth.Roles is
-- src/modules/admin-roles/admin-roles.service.ts.
--
-- Events. Events.Timing and its children Dates and Planner are
-- src/modules/admin-events/timing-planner.ts.
--
-- Point of sale. Pos.Refunds is src/modules/pos/pos-refunds.service.ts, which calls the inventory's
-- `releaseSold`.
--
-- Reporting. Reporting.CampAgeGroups is src/modules/reporting/camp-age-groups.ts.
--
-- Prelude holds what they share: names of the libraries, Boolean tests, lists, texts as lists of code
-- points, integers, stores keyed by an identifier, and the exceptions of NestJS as values.
--
-- How the code is read. A method that changes state is a function from the state, its arguments and
-- the time to the next state and the result; an exception is a value. Quantities, times and dates are
-- natural numbers (dates from 1970 on, times in milliseconds or minutes as the file says), and a
-- subtraction stops at 0 where the code has `GREATEST(0, …)`, or sets a count that fell below 0 to 0.
-- A transaction, a Lua script and a single statement each happen at once. A command of Redis succeeds
-- while the client is ready, except in Auth.Lockout, where each command that may throw is an argument.
-- Numbers are compared exactly where the code compares floats, and texts are sorted by code points
-- where it has `localeCompare`. `toLowerCase` and `trim` are those of ASCII. Amounts of money are
-- counts of thousandths behind `roundMoney`, and a percentage is one of thousandths of a percent; in
-- the report their arithmetic is a parameter, since it is floating point. The password hash, the
-- signing and checking of tokens, the digests, the parsers of URLs and of the bank's dates, the
-- answers of the payment gateways, which organization owns a row, and all random values are parameters
-- or arguments; what is asked of them stands among the hypotheses of the theorems.
--
-- Loops are structural recursion, except two on fuel. `eachDate` has one round for each day from its
-- first to its last date, which is its fuel. The loop of `runSweep` goes on only after a full batch,
-- which leaves fewer holds that are due, so that one round more than there are holds is enough.
--
-- Not modelled: controllers, guards, validation of requests by decorators, mail, text messages, calls
-- of payment gateways and of storage, reports that are computed in SQL, content management, and the
-- import from the older database. Of `CheckoutService`, the booking itself (`bookTicket`, the
-- resolution of its lines, the cache of idempotent answers) and advance payments are not modelled, nor
-- how amounts and currencies are read out of a gateway's payload; of the bank's callbacks, how their
-- dates are written and read; of the roles and the promo codes, the lists and the reports; of the
-- point of sale, all but refunds and payments at the counter.
pub mod Auth
pub mod Checkout
pub mod Events
pub mod Inventory
pub mod Pos
pub mod Prelude
pub mod Promo
pub mod Reporting
