-- ===== src/Cmd.antt =====
-- cmd: the four binaries. A main function reads its configuration, makes its connections in order and
-- serves; `log.Fatal` ends it with an error.
pub mod Wiring
pub mod HttpServer
pub mod Worker
pub mod Services
pub mod Accounts
pub mod Startup
pub mod Caller
pub mod Owners
pub mod Served
pub mod Listed
pub mod Created
pub mod Thumbnailed
pub mod EndToEnd
pub mod Signup
pub mod Registered
pub mod Joined
pub mod Evolution
pub mod Interleaved
