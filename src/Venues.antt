-- ===== src/Venues.antt =====
-- backend/app/venues: the places where the agent can trade, the cost of a quote, and the router that
-- quotes all of them and picks one.
pub mod Model
pub mod Cost
pub mod Router
pub mod Fills
