-- ===== src/Journey.antt =====
-- The way of a heartbeat between two nodes: Heartbeater, Publisher, the network, Subscriber, and the
-- boxoffice of the other node.
pub mod Relay
pub mod Delivery
pub mod Misread
pub mod Orders
mod Tests
