-- ===== src/Ticketing.antt =====
-- Tickets: the aggregate, the repository over the tables, and the service that the controllers call.
pub mod Ticket
pub mod Store
pub mod Service
mod Tests
mod Scenarios
