-- ===== src/Box.antt =====
-- src/box.cpp: the directories of a box, and what inotify says of them.
pub mod Inotify
pub mod Watch
pub mod Fill
pub mod Kinds
pub mod Reading
pub mod Delivery
mod Tests
