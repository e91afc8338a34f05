-- ===== src/Runtime.antt =====
-- What every component runs on: the Linux constants, the submission ring as the code fills it, the
-- kernel as a parameter, and the state of a worker thread with the exceptions of its fibers.
pub mod Abi
pub mod Uring
pub mod Thread
