-- ===== src/StorageServer.antt =====
-- The storage server (StorageServerModule.c): what it does with the requests of clients and of the
-- naming server.
pub mod FileSystem
pub mod Paths
pub mod Folders
pub mod Deletion
pub mod MadeFolders
pub mod Scan
pub mod Registration
pub mod Files
pub mod Memory
pub mod Tree
pub mod Archive
pub mod Transfer
pub mod Reports
pub mod Copied
pub mod Agreed
pub mod Requests
pub mod Cache
pub mod Words
pub mod Permissions
pub mod Answers
pub mod Listeners
pub mod Startup
pub mod Received
