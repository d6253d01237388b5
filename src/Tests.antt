-- ===== src/Tests.antt =====
-- The theorems at concrete inputs, and runs of the code.
mod Gateway
mod Joined
mod Accounts
mod Uploading
mod Running
mod Resizing
mod Settings
mod Rows
mod Schedule
mod Stored
mod Commands
mod Worked
mod Apart
mod Interleaved
mod Limits
mod Owners
mod EndToEnd
