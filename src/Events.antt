-- ===== src/Events.antt =====
-- events/: the journal of events and the bus that hands them to subscriptions.
pub mod Journal
pub mod Bus
mod Tests
