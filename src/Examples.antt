-- ===== src/Examples.antt =====
-- The theorems at concrete inputs, and runs of the model, with two instances of the JSON library's
-- interface: a small tree type, and the same with texts that are written and read.
mod Library
mod Texts
mod Messages
mod Registry
mod Sessions
mod Crowd
mod Servers
mod Process
mod Counters
mod Measures
