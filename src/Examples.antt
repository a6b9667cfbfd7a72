-- ===== src/Examples.antt =====
-- The theorems at concrete inputs, by the part of the program.
mod Samples
mod Credentials
mod Brokers
mod Reloads
mod Clusters
mod Passes
mod Refusals
mod Secrets
mod Scrapes
mod Converges
mod Failures
mod Programs
