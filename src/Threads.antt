-- ===== src/Threads.antt =====
-- The threads between two nodes. A round of a thread's loop takes the text that it received and
-- gives the messages that it sends; `stop` is the break on the interrupt.
pub mod Rounds
pub mod Receive
pub mod Heartbeater
pub mod Publisher
pub mod Subscriber
