-- ===== src/Sla.antt =====
-- Service level agreements: the choice of the policy of a ticket.
pub mod Matcher
mod Tests
