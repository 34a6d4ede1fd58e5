-- ===== src/Store.antt =====
-- The store server's orphan collection (cmd/relkit-store/gc.go, docs_readers.go). A tree of files is
-- what `os.Root` lets the server read, stat and remove; a removal that the system refuses, and a
-- file that cannot be read, are data of the file.
pub mod Keys
pub mod Live
pub mod Sweep
pub mod Adds
pub mod Referenced
pub mod Parts
pub mod Scans
pub mod Needed
pub mod Kept
pub mod Reclaimed
