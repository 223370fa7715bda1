-- ===== src/Tests.antt =====
-- Runs at concrete inputs, with a toy of the cryptography and the codecs.
mod Toy
mod Licenses
mod Gate
mod Ticks
mod Wire
mod Heartbeats
mod Upkeep
mod Storing
mod Server
mod Exchange
mod Jobs
mod Activation
mod Sources
mod Templates
mod Schedules
mod Sampling
mod Samplers
mod Creation
mod Specs
mod Batches
