-- ===== src/Tests.antt =====
-- Runs of the definitions and of the theorems at concrete inputs, one module for each part.
mod Ring
mod Connections
mod Pipes
mod Server
mod Timers
mod Urls
mod Echo
mod Sessions
mod Meeting
mod Starving
mod Making
mod Threads
mod Web
mod Queue
mod Workers
