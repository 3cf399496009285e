-- ===== src/FileSystem.antt =====
-- utility/FileSystem/FileSystem.c: the tree of a synchronised directory. The queues of files and
-- of folders are the lists that Queue proves them to be; their pointers are never NULL.
pub mod Types
pub mod Paths
pub mod Subtract
pub mod Diff
pub mod Update
pub mod Components
pub mod Listing
pub mod Serial
pub mod Unary
pub mod OneFile
mod Tests
mod PathTests
