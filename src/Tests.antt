-- ===== src/Tests.antt =====
-- Data to run the definitions on, and the theorems at that data.
pub mod Data
pub mod Books
pub mod Exiting
pub mod Assessing
pub mod Authorizing
pub mod PaperTrading
pub mod Monitoring
pub mod Venues
pub mod Strategies
pub mod Markets
pub mod Deciding
pub mod Safety
pub mod Live
