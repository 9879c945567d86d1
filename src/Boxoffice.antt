-- ===== src/Boxoffice.antt =====
-- src/boxoffice.cpp: the thread that runs the state machine.
pub mod Nodes
pub mod Clock
pub mod Office
pub mod Yields
pub mod Sending
pub mod Replies
pub mod Metadata
pub mod Heartbeats
pub mod LocalChanges
pub mod FileData
pub mod Events
pub mod Kept
pub mod Blocks
pub mod FileBlocks
pub mod Protocol
pub mod Router
pub mod MetadataReplies
pub mod SecondFile
mod Tests
