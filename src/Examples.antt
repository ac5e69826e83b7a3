-- ===== src/Examples.antt =====
-- Tests of the model, and each theorem at a concrete input.
pub mod Data
mod Frames
mod Worker
mod Packets
mod Demo
mod Dictionary
mod Threads
mod Fields
mod Sessions
mod Texts
