-- ===== src/Catalog.antt =====
-- The service catalog: the statuses of a service request, the approval gate and the requests.
pub mod Status
pub mod Gate
pub mod Requests
pub mod Forms
mod Tests
