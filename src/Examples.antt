-- ===== src/Examples.antt =====
-- The theorems at concrete inputs.
mod Texts
mod Addresses
mod Listing
mod Tables
mod Engines
mod Sources
mod Searches
