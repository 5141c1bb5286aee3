-- ===== src/Tests.antt =====
-- The theorems at concrete inputs, a module for each part of the program.
pub mod Router
pub mod Plugins
pub mod Options
pub mod Environment
pub mod Requests
pub mod Queue
pub mod Responses
pub mod Loop
pub mod Signals
pub mod Servers
pub mod Documents
pub mod Connections
