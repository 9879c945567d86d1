-- ===== src/Dispatcher.antt =====
-- src/dispatcher.cpp: the loop that sends a file in chunks, and the wait for the stop of the synchronisation.
pub mod Transfer
pub mod Chunks
pub mod Stop
mod Tests
