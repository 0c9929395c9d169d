-- ===== src/Server.antt =====
-- src/server.rs: the broker's HTTP handlers. The forwarding of a chat completion runs in a task of
-- its own, whose actions are listed in the order in which they happen; what the outside answers
-- (llama-server, the KV-cache store, the client) is given by functions.
pub mod Handlers
pub mod VramCache
pub mod Upstream
pub mod Relay
pub mod Chat
pub mod Router
mod Examples
mod Runs
