-- ===== src/Tests.antt =====
-- Runs of the model on small inputs, and the theorems at inputs that meet their hypotheses.
mod Data
mod Files
mod Queries
mod Trees
mod Commands
mod Retrieval
mod Changes
mod Serving
mod Searches
mod Names
mod Scanning
mod Exchanging
mod Reading
mod Chains
