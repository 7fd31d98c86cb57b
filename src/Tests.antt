-- ===== src/Tests.antt =====
-- The theorems applied at concrete inputs, by the part of the repository that they are about.
mod Values
mod Memory
mod Internal
mod Parts
mod Stack
mod Deletion
mod Queue
mod Remote
mod Discovery
mod Namespaces
