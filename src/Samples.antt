-- ===== src/Samples.antt =====
-- A small cluster on which the theorems are run: a world with one node, texts, an engine and a sort
-- that behave as documented, and the runs themselves.
mod World
mod Server
mod Words
mod Machines
mod Sorting
mod Locking
mod Reconciling
mod Running
mod Cordoning
mod Resting
mod Hosting
mod Together
mod Clashing
mod Booting
mod Serving
mod Sequences
mod Repeating
mod Sizing
mod Settling
