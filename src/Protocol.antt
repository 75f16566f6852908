-- ===== src/Protocol.antt =====
-- What the naming server sends, read by the client (NamingServerModule.c, clientfunctions.c).
pub mod Listing
pub mod Address
pub mod Archive
pub mod Joining
pub mod Started
pub mod Report
pub mod Created
pub mod Requests
pub mod System
pub mod Rounds
pub mod WriteThenRead
pub mod Commands
pub mod PathList
pub mod CopyReply
pub mod CopyErrors
