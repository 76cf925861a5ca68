-- ===== src/Jobs.antt =====
-- How a client's messages reach the handlers: the reading of a message, and the buffer of jobs
-- between the threads.
pub mod Text
pub mod Block
pub mod Accept
pub mod Client
pub mod Process
pub mod Requests
pub mod Buffer
pub mod Worker
