-- ===== src/Tests.antt =====
-- Runs of the model, and the theorems at concrete inputs.
mod Blocks
mod Cache
mod Disk
mod Index
mod Indexed
mod Links
mod Nodes
mod Shells
mod Tokens
mod TwoBlocks
