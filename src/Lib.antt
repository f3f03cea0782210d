-- ===== src/Lib.antt =====
-- Verification of the Spawn backend.
--
-- The backend serves a launchpad for tokens that trade on Uniswap v4 pools: it computes the geometry
-- of a token's curve and ladder, quotes and displays prices, streams trades to sockets, keeps the
-- ledger of a wallet, prepares launches and relays them to the chain, and holds the comments and likes
-- of wallets that have signed in. A launch's geometry starts from `openingLevel`; every price goes
-- through the tick mathematics; the stream, the ledger, the candles and the quotes use those prices; the
-- preparation checks and records a launch, and the relay sends its transaction. A comment advances the
-- generation of its token, in the tables and, through the outbox, in the cache. The services find the
-- contracts of a chain through the registry's address books, which come from stored manifests and
-- overrides of the environment, and read them through short-lived caches.
--
--   Protocol/TickMath      src/protocol/tick-math.ts: `getSqrtPriceAtTick`, `getTickAtSqrtPrice` and
--                          `mostSignificantBit`, with the table of factors and the shifts as quotients
--                          by powers of 2.
--   Protocol/Constants, Template   src/protocol/protocol-constants.ts.
--   Protocol/Arithmetic    `isqrt`, `mulDiv`, `mulDivRoundingUp`, `divRoundingUp` of
--                          src/protocol/protocol-math.ts, as the modules below.
--   Protocol/Orientation   levels and ticks, `sqrtPriceAtLevel`, the valuation at a level.
--   Protocol/Curve         `openingLevel`, `farLevel` and the nested positions of the curve.
--   Protocol/Ladder        the bands above graduation, and what each holds.
--   Protocol/SwapMath      the amounts over a price range, and the price after an exact output.
--   Protocol/DevBuy        `devBuyQuote`: the walk over the curve's positions.
--   Protocol/PriceText     decimal strings of prices, also those of src/modules/trading/price.ts.
--   Trading/Ledger         `walletPnl` of src/modules/trading/trading.service.ts, as a fold of the rows
--                          that its queries return.
--   Trading/MaxBuy         `maxBuy` of the same file, with the quoter as a parameter.
--   Trading/QuoteCache     `cachedQuote` of the same file.
--   Trading/Holders, Depth `holders`, `depth` and `curveProgress` of the same file, on the rows that the
--                          queries return.
--   Trading/Broadcaster    src/modules/trading/broadcaster.ts: the state is a `Hub`, and a handler is a
--                          function from hubs to hubs; what is sent is kept in the hub, in order.
--   Keepers                `jobs` of src/modules/keepers/keepers.service.ts.
--   Protocol/Eip712        `launchConfigHash`, `launchTokenSalt` and `launchDigest`, with Keccak and the
--                          ABI encoder as parameters.
--   Launch/Prepare         src/modules/launch/launch-prepare.service.ts: the checks of a request, among
--                          them the payout plan, and the record that is created or updated.
--   Launch/Relay           src/modules/launch/launch-relay.service.ts: `relay` in two parts, up to the
--                          reservation and from it on, so that relays can interleave; the rows are the
--                          store, and what signing and sending gives is an argument.
--   Infrastructure/RateLimit   `check` of src/infrastructure/rate-limit/redis-rate-limiter.ts and its
--                          script, for one key.
--   Infrastructure/RateGuard   the guard and the policies beside it, for an address and a wallet.
--   Infrastructure/Cache   the generations of src/infrastructure/cache/redis-domain-cache.ts, as texts,
--                          and the script that compares them.
--   Infrastructure/Outbox  src/infrastructure/queue/outbox-dispatcher.ts: `dispatchBatch` on the rows of
--                          the outbox, with the cache above.
--   Infrastructure/SignInMessage, WalletAuth   src/infrastructure/auth: nonces, the sign-in, session
--                          tokens and the guard; HMAC, base64, JSON and the check of a signature are
--                          parameters.
--   Infrastructure/Addresses   src/infrastructure/blockchain/address-book.ts: the schema of a manifest
--                          (Manifest), the variables of the process (Overrides) and the book of both.
--   Infrastructure/Registry   blockchain-registry.service.ts, chain-client.factory.ts and
--                          contract-readers.ts beside it: the books and contracts of the chains.
--   Infrastructure/Events  event-topics.ts beside it: the table of events (Kinds, HookEvents and
--                          Table) and its lookups.
--   Infrastructure/Reads   protocol-read.service.ts beside it: the caches in front of the contracts,
--                          and the methods (Methods) over the contracts as parameters.
--   Protocol/Service       src/modules/protocol/protocol.service.ts, on the rows that its queries give:
--                          addresses and economics; Reports: plugins, governance and watermark;
--                          Revenue: revenue, statistics and the statement of `revenueHistory`.
--   Config                 `validateEnvironment` and `parseTrustedProxy` of src/config/environment.ts,
--                          behind the schema.
--   Comments/Threads       `create`, `delete` and `replay` of src/modules/comments/comments.service.ts
--                          on the tables, with the generations of comment-cache-generation.ts.
--   Comments/Resolver      src/modules/comments/comment-token-resolver.ts.
--   Comments/Likes         src/modules/comments/comment-likes.service.ts: the two transactions on the
--                          rows of comments and likes.
--   Tokens/Candles         `candles` and `fillJoinedCandles` of
--                          src/modules/tokens/token-query.service.ts, on the rows of minutes.
--   Tokens/Listing         the statements of `list` of the same file, as texts.
--   Tokens/Milestones      `milestones` of the same file, and the way to the next payout.
--   Tokens/PreLaunch       the opening price on the cards of tokens without a trade.
--   Tokens/Creation        src/modules/tokens/token-creation.service.ts: `create` in two parts, up to the
--                          reservation and from the upload on, so that creations can interleave.
--   Profiles               `find` and `update` of src/modules/profiles/profiles.service.ts.
--   Common/Texts           the comparisons and patterns that the services use of strings.
--   Common/Trim            `trim`, and lists written with commas.
--   Common/Pagination      src/common/pagination. Common/Decimal, Common/Dict and Common/TextDict stand
--                          for `toString` with `padStart` and for the runtime's `Map`.
--
-- A bigint and a whole `number` are a natural number, or an integer where it may be negative; no
-- bigint wraps. What a function throws is a `Fault`, and a call that may throw is an `Outcome`.
-- A read of the chain that spans time has the moment that it saw and the one at which it ends.
-- Identifiers (pools, tokens, wallets in lower case, sockets, keys) are numbers, since the code only
-- compares them. Three loops run on fuel: Newton's in `isqrt` on the first guess, which each round
-- lowers, and the binary length and the decimal digits of a number on the number itself, which has no
-- more digits than its value. The loops of `maxBuy` have the source's own bounds. All other loops are
-- structural: the walk of `devBuyQuote` passes one boundary in each round.
--
-- The walk over the candles' buckets runs on their number in the window, the loop over a payout plan on
-- its 256 bits, and the loop over the milestones on the number of bands of the template.
--
-- Not modelled: the database and Redis themselves and their failures, the chain's client,
-- the contracts, the schemas of zod but the manifest's, queries that only shape rows, the values of the
-- cache and its fallbacks, and the wiring of the framework. Where a curve has no positions, the start of
-- a position is NaN or an infinity in the source and a fault in the model.
pub mod Prelude
pub mod Common
pub mod Config
pub mod Protocol
pub mod Trading
pub mod Keepers
pub mod Launch
pub mod Infrastructure
pub mod Comments
pub mod Profiles
pub mod Tokens
pub mod Tests
