-- ===== src/Lib.antt =====
-- Verification of the marketplace backend.
--
-- The backend is a NestJS application whose services keep their own tables and talk by messages. The development
-- models the part that moves money, stock and orders:
--   - account (src/account) keeps a balance and a ledger for each customer. RPC handlers charge and refund a customer;
--     an inbox lets each message take effect once, and a refund writes the row of a charge that never came, so
--     that the charge is skipped when it arrives.
--   - seller-offer (src/seller-offer) keeps offers with their stock on hand and their reserved quantity, and one
--     reservation for each order and offer. RPC handlers reserve the items of an order and release them.
--   - order (src/order) places an order in one transaction, with a row for its event and a row for its workflow. The
--     workflow reserves the stock, charges the buyer, and marks the order paid, or else refunds, releases and
--     marks it failed.
--   - the relay of order's outbox (src/order/service/order-outbox-relay.service.ts) publishes the events to Kafka, the
--     relay of its workflow outbox starts the workflows, and the
--     notify service keeps the last events of each order for the clients that listen.
--   - identity (src/identity) registers identities and logs them in, with a password or through an external provider, and
--     keeps sessions: a refresh token is consumed and replaced, its reuse revokes its family, and a logout does too.
--   - user (src/user) creates a profile when it hears that an identity was registered, and tells so in turn; order and account
--     then open a buyer and an account.
--   - product (src/product) creates products with their translations.
--   - every request passes the guards of src/generic/auth: an access token is verified, its family must not be denied, and the
--     abilities of its role decide. src/generic also limits the rate of requests, retries transactions, caches
--     orders and consumes events.
--
-- Files and what they model:
--   - Common: Boolean tests, lists, texts as character codes, tables with a primary key (Common/Tables), and calls on
--     a database with `@Transactional()` (Common/Calls).
--   - Money: amounts as texts. Money/Text has the check and the reading of amounts of
--     src/account/gateway/account.gateway.ts and `toFixed(2)`; Money/Digits and Money/Fixed prove what they say of each other.
--   - Messaging: the envelope of packages/messaging-contracts/src and the checks on its fields.
--   - UserCreated: the event that a user was created, and what its two consumers check of it; Account/UserEvents and
--     Order/Buyers are the consumers, which open an account and register a buyer.
--   - Account/Store has the rows and queries of src/account/entity and repository (`debit`, `credit`, `createIfAbsent`,
--     `findBalance`, `create`); Account/Commands the command handlers and `AccountInboxService`; Account/Gateway the
--     handlers `handleCustomerCharge` and `handleCustomerRefund`. Account/Inbox, Branches, Outcomes, Delivery, Ledger and Handlers
--     are proofs.
--   - SellerOffer/Store has src/seller-offer/entity and repository (`findByIds`, `reserve`, `release`);
--     SellerOffer/Commands the command handlers; SellerOffer/Gateway `handleStockReserve` and `handleStockRelease`.
--     SellerOffer/Totals, Releasing, Reserving, Cycle, Success and Again are proofs.
--   - Outbox/Store has the rows and queries of src/order/repository/order-outbox.repository.ts, and Outbox/Relay the relay
--     `relay` and `relayBatch`; Outbox/Workflows has the relay of the workflow outbox
--     (src/order/service/order-workflow-outbox-relay.service.ts). Outbox/Claimed, Sent, Ordered, Drained and Heard are proofs.
--   - Identity/Store has src/identity/entity and the queries on sessions; Identity/Commands the refresh and logout command
--     handlers, `createTokenPair` and `denyFamily`; Identity/Forms the inputs and the constraints of the table; Identity/Accounts
--     the other queries, with `PasswordService`; Identity/Register the register and login command handlers; Identity/Attempts the
--     command handlers that start a sign-in with an external provider, with `OidcSignInAttemptService` and `exchange` of
--     `OidcClientService`; Identity/Oidc the command handler that ends it.
--     Identity/Rows, Rotation, Revoked, Ended, Created, Registered, Logins, Linked, SignedIn, Spent, Consistent, Kept and Requests
--     are proofs.
--   - User/Store has the tables of src/user and their queries; User/Create the command handler and the handler of events;
--     User/Relays the relays of identity's and user's outboxes. User/Created, Provisioned and Announced are proofs.
--   - Product/Create has src/product: the input, the tables and the command handler. Product/Created is a proof.
--   - Access/Tokens has `AccessTokenVerifierService`, `isFamilyDenied` and `AccessTokenGuard` of src/generic/auth;
--     Access/Abilities `AbilityFactory` and `AbilityGuard`. Access/LoggedOut is a proof.
--   - Generic/RateLimit has src/generic/rate-limit/redis-throttler.storage.ts; Generic/Retry src/generic/db/typeorm-retry.adapter.ts;
--     Generic/Cache src/generic/cache/cache.service.ts; Generic/Consumer `eachMessage` of
--     src/generic/kafka/kafka-consumer.service.ts; Generic/Secrets src/generic/secret-manager. Generic/Windows, Limits, Attempts and Handled are proofs.
--   - Order/Store has the tables of src/order/entity and the queries on an order; Order/Status `markPaid` and `markFailed`;
--     Order/Place the command handler of src/order/command-handler/order-place.command-handler.ts; Order/Input the decorators of
--     src/order/input/order-create.input.ts; Order/Messages the requests of src/order/service/order-place-message.service.ts; Order/Workflow src/order/workflow/order-place.workflow.ts
--     over any activities; Order/Activity the activities of src/order/activity/order-place.activity.ts over the gateways
--     that they call; Order/Notify the service `OrderNotifyService`; Order/Stream the stream of
--     `OrdersController`; Order/Reading `OrderService`, `OrderAccessService` and
--     `OrderAccessGuard`, behind the guards of Access. Order/Placed, Readers, Valid, Repeated, Registered, Started, Consistent, Kept,
--     Accepted, Attempts, Listeners, Recorded, History, Newer, Streamed and Saga are proofs.
--   - Samples, Identity/Examples and Access/Examples have concrete data, and the modules whose names end in Tests have examples.
--
-- How the state corresponds: a database is a record of tables, and a call on it returns a result or throws and gives
-- the next state; a transaction that throws gives back the state before. Money is a number of cents, and a
-- `numeric(12,2)` column holds less than 10^12 of them; an `integer` column holds less than 2^31, and PostgreSQL throws
-- beyond it. A UUID is a number, and its text is a parameter, `UuidText`: class-validator and PostgreSQL read what
-- PostgreSQL prints. Generated ids and the time are arguments.
--
-- The code of other parties is a parameter, with what is relied on as fields of a record or as hypotheses: Argon2
-- (`Argon`: a password verifies against its own hash), jose (`Jwt`: a token that has expired is not accepted), the keyed hash
-- of refresh tokens, `citext` as a folding of texts, and the e-mail checks of class-validator and zod. What Redis, Kafka and
-- the provider of an external sign-in answer is an argument of each step.
--
-- Bounds and fuel: no function runs on fuel. An activity is retried by Temporal as long as its options allow; the
-- model takes the list of its attempts, of any length, each of which expires in its queue, is handled and loses its
-- reply, or is answered. An activity without an overall timeout is retried until it succeeds, so after the attempts of
-- its list it is answered once, if its receiver replies at all. The loop of
-- `retryTransactionOnDeadlock` recurs on the attempts that are left, `getOrLoad` on the rounds that fit before its
-- deadline, and a consumer on a list of attempts of any length.
--
-- Not modelled: requests run one at a time, as the row locks and the inbox order them; a request that is handled after
-- its activity has ended is not part of the workflow, but sequences of deliveries in any order are modelled in
-- Account/Delivery, SellerOffer/Cycle and Identity/Requests. Identities that are deleted are rows with a flag, as no code
-- deletes them. The cancellation of a workflow, logging, the wiring of NestJS, RabbitMQ, Kafka and Temporal, the loading of
-- keys and secrets, HTTP controllers and DTOs, the catalogue beyond new products (categories, brands, sellers), migrations and seeds are
-- left out: they are plain reads and writes, or calls of third-party code.
pub mod Common
pub mod Money
pub mod Messaging
pub mod Generic
pub mod Access
pub mod User
pub mod Product
pub mod UserCreated
pub mod Account
pub mod SellerOffer
pub mod Identity
pub mod Outbox
pub mod Order
pub mod Samples
