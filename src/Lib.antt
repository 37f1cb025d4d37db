-- ===== src/Lib.antt =====
-- VallaPOS: the money paths of the point of sale.
--
-- VallaPOS is a browser point of sale. The register prices a cart (src/features/register, over the
-- integer arithmetic of src/lib/money.ts), the checkout stores an order with its lines and payments
-- and takes the sold units from stock, and a manager may void or refund the order, which writes
-- reversing payments and puts the units back (src/features/orders). A tab is an open order that is
-- split by seat and settled in parts (src/features/tabs). PINs are verified behind a throttle
-- (src/lib/pin-throttle.ts). Sales rung up offline are queued in the browser and replayed when the
-- network is back (src/lib/offline).
--
-- Where each part is modelled:
--
-- - Base: names of the libraries, Boolean tests, lists over the native numbers, a stable sort
--   (Base/Sort), signed amounts (Base/Int).
-- - Money: src/lib/money.ts. Money has `roundCents`, `taxOf` and `embeddedTaxOf`; Money/Discount has
--   `allocateCartDiscount`; Money/Totals has `computeTotals`.
-- - Register/Pricing: src/features/register/pricing.ts (`priceLine`, `computePricedOrder`,
--   `validateGroupSelection`). It uses Money as the source does. Register/Tender has the suggested
--   cash amounts of src/features/register/tender.ts.
-- - Register/Resolve: src/features/register/resolve-lines.ts, the lines of an order against the catalog.
--   Register/Approval has the manager's PIN of src/features/register/manager-approval.ts, over
--   PinThrottle.
-- - Register/Checkout: `checkout` of src/features/register/actions.ts with the schema beside it, over
--   Resolve, Pricing, Approval and Inventory. What is read and computed before the transaction and
--   the transaction are two functions, so that other requests can run between them.
-- - Inventory: src/features/register/stock-decrement.ts, src/features/catalog/stock.ts, and
--   `restockOrderLines` of src/features/orders/actions.ts.
-- - Orders/Refund: src/features/orders/refund.ts, the plans of full and partial reversals.
-- - Orders/Actions: `voidOrder` and `refundOrder` of src/features/orders/actions.ts with all that
--   they call; it uses the plans of Orders/Refund and the restock of Inventory.
-- - Tabs: src/features/tabs/tab-math.ts. Tabs/Edits and Tabs/Actions are the actions of
--   src/features/tabs/actions.ts: Edits has the transactions, with `recomputeOrderTotals`, and Actions
--   what is read and computed before them, the gate of `settleTab` and the whole actions.
-- - Payments: src/features/payments/sale-store.ts, the sales by QR that a webhook settles.
-- - PinThrottle: src/lib/pin-throttle.ts with its in-memory store.
-- - Offline: `runReplay` of src/lib/offline/replay-core.ts over the stores of checkout-queue.ts and
--   dead-letter.ts there, for any server. Offline/Server is the wiring of `realReplayDeps`, where the
--   server is `checkout` of Register/Checkout; the decryption and what happens to a request on its way
--   are parameters.
-- - Drawer: src/features/cash-drawer/reconcile.ts. Drawer/Sessions has `openDrawer` and `closeDrawer` of
--   src/features/cash-drawer/actions.ts, with the sum of queries.ts beside it.
-- - Staff: src/lib/roles.ts, src/lib/capabilities.ts and src/features/employees/duration.ts.
-- - Files named Tests hold runs at concrete inputs and the theorems applied to them.
--
-- How the program is represented:
--
-- - Amounts in cents, quantities, rates and times are validated as non-negative integers by the zod
--   schemas at the boundary, so they are naturals, and `Math.max(a - b, 0)` is the subtraction of
--   naturals. Payments, refund amounts and stock counts are signed and use `ℤ` of Base/Int.
-- - JavaScript numbers are doubles. Sums and products of integers below 2 ^ 53 are exact. A quotient
--   n / d of such integers is correctly rounded, and since n / d is either an integer or half of one
--   or at least 1 / (2 d) away from both, `Math.floor` and `Math.round` of the double are those of
--   the exact quotient for the sizes of a till (n * d below 2 ^ 52): so they are exact divisions here.
-- - The fractional part of a double quotient, by which leftover cents are ordered, is not exact. It is
--   the parameter `Fractions` of Money/Discount: a function of which only the IEEE 754 fact is assumed
--   that for dividends below 2 ^ 53 it is zero exactly when the divisor divides the dividend. Theorems
--   that need the fact assume that bound; Money/Tests has an instance.
-- - `String.localeCompare` is the parameter `after`, of which nothing is assumed.
-- - A `Map` is an association list in insertion order, and `Array.sort`, which is stable, an
--   insertion sort. The loops are structural recursions, so that they end without fuel.
-- - The database is the rows of one business, since every query is scoped by `businessId`. A void or
--   a refund is one step, because it locks the order's row. The checkout, the actions on tabs and the
--   closing of a drawer read and compute before their transaction, so they are two functions, what is
--   prepared and what is committed, between which others can run; the whole action composes them.
--   What throws leaves the rows as they were (`thrown`, `none` or an error). What `requireCapability`
--   decides is the argument `allowed`, or `granted` where the operator that it returns is used. Ids
--   that the database generates, and the time, are arguments. That ids are primary keys is a
--   condition of the theorems that need it.
-- - Functions of the runtime and of libraries are parameters: `trim`, `toUpperCase`, the decimal
--   notation of a number, and `verifyPin`, which calls scrypt.
--
-- Not modelled: the actions of the catalog and of employees, reports, the encryption of the offline
-- queue, the calls of Stripe and the reading of its events, subscriptions and licences, printing, the
-- SQLite store of the desktop edition, the Redis client of the throttle, authentication, and the user
-- interface.
pub mod Base
pub mod Money
pub mod Register
pub mod Inventory
pub mod Orders
pub mod Tabs
pub mod Payments
pub mod PinThrottle
pub mod Offline
pub mod Drawer
pub mod Staff
