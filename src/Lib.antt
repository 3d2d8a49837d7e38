-- ===== src/Lib.antt =====
-- The back end of a web shop for groceries: a library that models its services and proves what they
-- keep.
--
-- The program is a set of services over one PostgreSQL database. Physical stock is a table of
-- batches; carts and orders hold stock by reservations; an order of the web shop moves along a
-- diagram of statuses until it is delivered, when the batches are lowered, the reservations consumed
-- and the cash recorded, or cancelled, when the reservations are released; a till sells from the
-- same batches, and customers earn and redeem points.
--
--   Prelude               names of the library, tests, lists, integers
--   Prelude/Outcome       a call: a result and the tables as it leaves them; `transaction` restores
--                         them where the body throws (BEGIN, COMMIT, ROLLBACK)
--   Prelude/Table         SELECT, UPDATE, SUM, COUNT and ORDER BY over a table as a list of rows
--   Inventory/Rows        batch_inventory, stock_reservations and inventory_transactions
--   Inventory/Fifo        the loop that takes a quantity from batches, oldest expiry first
--   Inventory/Batches     backend/src/services/batchService.ts
--   Inventory/Reservations  backend/src/services/stockReservationService.ts
--   Inventory/Batches/Refine  the batches as a quantity for every store and product
--   Inventory/Issue       the loop with its movements, as webOrderService.ts and posService.ts in
--                         backend/src/services run it
--   Orders/Rows           web_orders and the tables beside it
--   Orders/Web            updateWebOrderStatus and cancelWebOrder of
--                         backend/src/services/webOrderService.ts
--   Orders/Payments       updatePaymentStatus of backend/src/services/webOrderService.ts
--   Orders/Lifecycle      backend/src/services/orderLifecycleService.ts
--   Orders/Checkout       cancelCustomerOrder of backend/src/services/checkoutService.ts
--   Pos/Rows              sales, sale_items, products and prices
--   Pos/Sales             createSale, updateSaleStatus and attachCustomerToSale of
--                         backend/src/services/posService.ts
--   Pos/Points            postEarnPoints, authorizeRedemption and postRedemption of the same file, over
--                         the ledger and the lots
--   Pos/Reversals         voidSale and processReturn of the same file
--   Payments/Rows         payment_intents, payment_webhook_logs, payment_refunds, payment_reconciliation
--   Payments/Intents      createPaymentIntent and verifyPaymentStatus of
--                         backend/src/services/paymentService.ts
--   Payments/Webhooks     processWebhook of the same file
--   Payments/Refunds      refundPayment and reconcilePayments of the same file
--   Carts/Rows            carts, addresses, stores, delivery zones
--   Carts/Delivery        backend/src/services/deliveryZoneService.ts
--   Carts/Validation      backend/src/services/cartValidationService.ts
--   Carts/Places          where createCodOrder of backend/src/services/checkoutService.ts sends an order
--   Carts/Checkout        createCodOrder of the same file
--   CodPolicy             the eligibility check of backend/src/services/codPolicyService.ts
--   Offline               backend/src/services/offlineQueueService.ts
--   Loyalty/Rows          loyalty_ledger, loyalty_earn_lots and customer_audit_log
--   Loyalty/Ledger        backend/src/services/ledgerService.ts
--   Loyalty/Lots          backend/src/services/earnLotsService.ts
--   Otp                   backend/src/services/otpService.ts, with the keyed digest and the providers as
--                         parameters
--
-- Each operation keeps the name of its function, in snake case, and takes its arguments; the tables
-- come last and are answered with the result. A statement of SQL is one update of a list. Where the
-- code runs outside a transaction, what it wrote before it threw stays in the answer.
--
-- Ids, dates and instants are natural numbers, an id that the database generates and the value of
-- NOW() are arguments, and money is counted in paisa. The quantity of a batch is an integer, since
-- the code can make it negative; quantities that are asked for are natural numbers. A status that the
-- code compares with texts is a data type with a constructor for every text that the code names and
-- one, `other`, for the rest. Texts of reasons and addresses and costs are left out, and metadata but
-- for that of the order events: no modelled code tests them. Where PostgreSQL refuses a statement for the
-- tables that the migrations make, the call throws. No loop needs fuel: each recurs on a list of rows. The row locks and
-- advisory locks make a transaction one step, so that calls follow one another; a property of many
-- calls is stated over a list of them or over a step relation. Where the code takes no lock, as in
-- createReservation and verifyOTP, its queries are also functions of their own, and a theorem says what
-- calls at the same time do.
--
-- Not modelled: the services of purchasing, receiving, transfers, shifts and the approval of refunds,
-- the rules of the loyalty pilot (their values are floating-point numbers), the routes, the front end,
-- the schema, hashes and signatures of node's crypto, and the services that only build queries for
-- reports.
pub mod Carts
pub mod CodPolicy
pub mod Inventory
pub mod Loyalty
pub mod Offline
pub mod Orders
pub mod Otp
pub mod Payments
pub mod Pos
pub mod Prelude
