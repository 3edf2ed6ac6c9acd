-- ===== src/Lib.antt =====
-- gamja market: the trades, the payments and the escrow of the marketplace.
--
-- The API (apps/api) and the worker (apps/worker) share one PostgreSQL database, which they reach
-- by Prisma; what they keep between two requests is in its tables. A state here is that database:
-- Schema.Records.Db has a list of rows for each table of packages/database/prisma/schema.prisma that
-- the modelled code uses, and the enums are those of the schema. The verbs of Prisma that are used
-- (findFirst, findMany, updateMany, update, create, with the unique constraints of the schema) are
-- Schema.Rows and Schema.Tables; a method is an Action, a function from a database to its result
-- and the next database, and `transaction` gives back the old database when its body throws. A
-- transaction runs as one step: the row locks of `FOR UPDATE` read nothing. The errors are values,
-- with the codes of the exceptions. Times are milliseconds, and `now` and the ids of new rows are
-- arguments. Ids are numbers, texts are lists of UTF-16 code units, and an amount is a natural
-- number whose entry in the ledger is an integer.
--
-- Trades: apps/api/src/trades/trade.service.ts. Trades.Request is `request`; Trades.Transitions has
--   `accept`, `reject`, `deliver`, `confirm`, `dispute` and `cancel`, each with its transaction as a
--   definition of its own (`accept_tx`). Trades.Reads has `list`, `detail` and the
--   automatic confirmations. Trades.Effects says what each has found and written,
--   Trades.Exclusive is the reservation invariant and Trades.Audit the invariant of the history.
-- Payments: apps/api/src/payments/payment.service.ts. Payments.Model has the idempotency keys, and the
--   provider of toss-sandbox.adapter.ts as a record of functions, which answers what it wants;
--   Payments.Orders is `createOrder` and `detail`, Payments.Confirm `confirm` and Payments.Reverse
--   `cancel` and `refund`. The hash of a request is a function that is a parameter: nothing is
--   asked of it. Payments.Webhook is `receiveWebhook`, with the HMAC, the environment and the parser of
--   the body as parameters. Payments.Toss is toss-sandbox.adapter.ts, which is such a provider in each
--   state of its sandbox; the network is a parameter. Payments.Escrow is the invariant of the ledger.
--   Payments.Booking spells out, row by row, what a capture and a reversal find and write.
-- Products: apps/api/src/products/product.service.ts. Products.Images checks the images that are sent,
--   by their bytes after base64, whose decoder is a parameter; Products.Service has `create`, `update`,
--   `setStatus`, `remove`, `detail`, `mine` and `image`.
-- Accounts: apps/api/src/auth. Accounts.Sessions is `login` with its throttle and `logout` of
--   auth.service.ts; Accounts.PasswordPolicy is password-policy.ts, with its message of
--   apps/web/app/password-policy.ts. The hashes and the tables of Unicode are parameters.
-- Safety: apps/api/src/safety/safety.service.ts, the blocks and the reports; `isBlocked` is what the
--   trades and the chats ask. Chats: apps/api/src/chats/chat.service.ts, the rooms and the messages.
-- Admin: apps/api/src/admin/admin.service.ts, what an administrator changes, and the audit log. The
--   check of a password by argon2 is a parameter.
-- Worker: apps/worker/src/trade-maintenance.ts and settlement-maintenance.ts. The loops go over the
--   rows that were read before, so they need no fuel. The payout provider is a record of functions.
--   Worker.Outbox is apps/worker/src/payment-events.ts: the events of the outbox, their claims and
--   retries, and the webhooks that they deliver; the provider and the parser are parameters there too.
-- Market: the requests of the API beside the jobs of the worker, as a relation of steps. A request
--   is one step; the transactions of a capture and of a reversal, and each round of a job's loop, are
--   steps too with whatever they have read before, since other steps may come between. IsOrderly
--   names what no check of the code ensures of such steps: that a product is shown only while no trade
--   of it is selected (product.service.ts, setStatus), and that the transaction of a reversal finds
--   its payment and trade as its checks have read them (payment.service.ts, reverse).
-- Sound: the invariants of the whole database.
-- Tests: a small market, and the theorems at it.
--
-- Not modelled: the list of products, the codes, sign-up, resets and withdrawal of
-- apps/api/src/auth, the lists of the administration, the sockets of the chats, and the views of
-- the web application. They share the users, the products and the rooms with the modelled code. The
-- controllers and the queues only pass calls on, and the generated database client is taken by what
-- it documents. The settlement of Worker.Settlement is not among the steps of Market. A webhook is
-- one step of Market.
pub mod Base
pub mod Schema
pub mod Safety
pub mod Accounts
pub mod Products
pub mod Trades
pub mod Payments
pub mod Worker
pub mod Sound
pub mod Market
pub mod Tests
pub mod Chats
pub mod Admin
