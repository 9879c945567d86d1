-- ===== src/HashTree.antt =====
-- src/hash_tree.cpp: the tree over the hashes of a directory. The object's old tree is cleared before
-- makeHashTree looks at anything, so it is no argument here. Fewer than 2 ^ 31 hashes are given.
pub mod Size
pub mod Sort
pub mod Levels
pub mod Build
pub mod Changes
mod Tests
