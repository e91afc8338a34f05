-- ===== src/Tests.antt =====
-- Runs of the model on small inputs, with a kernel, threads and a channel given by concrete functions.
mod Fixtures
mod Io
mod Multishot
mod Tables
mod Scheduling
mod Tasks
mod Pools
mod Senders
mod Destructors
mod Servers
