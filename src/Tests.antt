-- ===== src/Tests.antt =====
-- Runs of the model on concrete inputs, with a C library and an operating system that are
-- functions.
mod Heap
mod Messages
mod Connections
mod Scripts
mod Machine
mod Wrappers
mod Streams
mod Exchanges
mod Histories
mod Systems
