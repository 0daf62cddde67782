-- ===== src/Lib.antt =====
-- A model of the decision core of the meme-token trading agent, with the theorems that make it
-- correct. The agent scans a market, sizes and checks an entry, has it approved, executes it on
-- paper or through a wallet, and watches the open positions until an exit rule closes them.
--
-- The parts, and the files that model them (paths from the repository's root):
--   Core       enums, exceptions and results: backend/app/core/types.py and errors.py
--   Domain     market snapshots and trade value objects: backend/app/domain/market.py, trade.py,
--              history.py and windows.py
--   Portfolio  positions, cash, daily results, marks, the operator's switches, the cash that
--              may be deployed, and the exit rules: backend/app/portfolio/state.py, controls.py,
--              live_cash.py, exits.py
--   Risk       the veto engine and its rules, sizing, trade approvals, per-user limits and the gate in
--              front of every trade of a user: backend/app/risk/engine.py, approval.py,
--              per_user_policy.py
--   Wallets    wallet policies, authorizations and the submission template:
--              backend/app/wallets/base.py
--   Execution  the price impact estimate, the paper executor, the live executor and its idempotency
--              store: backend/app/execution/math.py, paper.py, live.py, backend/app/events/bus.py
--   Discovery  the registry of tokens, their monitoring, and the ranking of candidates:
--              backend/app/discovery/registry.py, monitoring.py, ranking.py
--   Venues     the cost of a quote, its check against the limits, the choice of a venue, and the fill
--              of a swap: backend/app/venues/base.py, cost.py, router.py, fills.py
--   Strategies the scores and gates of the five strategies, the choice of one, the versions of their
--              settings: backend/app/strategies
--   MarketData providers of market data with a circuit breaker each, and the merge of their answers:
--              backend/app/market_data/registry.py
--   Decision   from a snapshot to an approved trade, and the manual override:
--              backend/app/services/decision.py, backend/app/ai/schemas.py
--   Services   the check of webhook addresses: backend/app/services/webhook_safety.py
--   Base, Float  shared names, lists, dictionaries and texts; the floats. Tests: data and examples.
--
-- How they interact. A RiskContext holds a MarketState, a PortfolioState and the limits; the engine
-- (Risk.Engine.assess) runs the rules in order, and the portfolio rule rolls the day of the portfolio
-- while it reads, so a rule returns the portfolio too. Approvals (Risk.Approval) sign a request; the
-- paper engine (Execution.Paper) checks the signature, answers a repeated key with the stored result,
-- and books fills with apply_buy and apply_sell of the portfolio. The gate (Risk.PerUser) composes the
-- limits of all layers and collects the violations that Wallets.Policy finds. The live engine
-- (Execution.Live) clears a quote, builds and simulates a swap, claims the key, submits, and books the
-- confirmed fill; a World holds what one call draws from the chain, the wallet and the clock. Exit rules
-- (Portfolio.Exits.evaluate) read a position and a market and return decisions. Monitoring
-- (Discovery.Monitoring.run_once) picks the tokens that are due, looks at each, and writes it back to
-- the registry. The router (Venues.Router.quote) asks every venue and picks one of the answers. The market data registry
-- (MarketData.Registry.get_market_state) asks providers until the merged MarketState is complete; a
-- strategy (Strategies) scores it, and what qualifies goes on to the risk engine. The pipeline
-- (Decision.Evaluating.evaluate) puts these together: score, first assessment, AI, size, second
-- assessment, venue, approval; a Consultation holds what it draws from outside, and what other tasks do
-- to the portfolio and the switches while the AI answers.
--
-- State and operations. A class with state is a record; a method that changes it is a function that
-- returns the new state, beside what it returns or raises (Core.Errors.Result). What a call draws from
-- outside (uuid4, the clock, a provider's answer) is an argument. The functions have the names of the
-- code; helpers of one function stand beside it. Fields that are only displayed are left out.
--
-- Numbers. Python's float is an interface, Float.FloatOps, that every definition takes: its operations
-- are total, with division by zero as ZeroDivisionError. What theorems need of it is stated by
-- Float.IsOrdered (order, monotone sums and rounding; it holds of finite floats). Float.Fixed is a
-- decimal fixed-point instance that runs and meets it; the examples compute with it. Python's int is a natural number
-- where the code keeps counts and seconds. Times are microseconds since an epoch. Sets of texts are
-- lists that are read by membership.
--
-- Bounds. All loops run over lists and are structural recursion; there is no fuel.
--
-- Not modelled: discovery's stores and network access, enrichment, venue adapters, the chains, the
-- AI model, the trading loop and the statistics of services, the runner and the API, which are
-- separate subsystems or I/O around the parts above; texts for logs and users; saving a portfolio as JSON; the decoding of the
-- logs and the payloads that the services send, and the label of a window's source; the JSON text
-- of a request and HMAC-SHA256, which are arguments of Risk.Approval; str.lower is modelled on
-- ASCII.
pub mod Base
pub mod Core
pub mod Float
pub mod Domain
pub mod Decision
pub mod MarketData
pub mod Portfolio
pub mod Execution
pub mod Risk
pub mod Wallets
pub mod Discovery
pub mod Venues
pub mod Strategies
pub mod Services
pub mod Tests
