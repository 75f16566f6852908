-- ===== src/Client.antt =====
-- The client (clientfunctions.c).
pub mod Listing
pub mod Session
pub mod Tokens
pub mod Locate
pub mod Replies
pub mod Commands
pub mod Start
pub mod Strings
pub mod Ended
