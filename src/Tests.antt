-- ===== src/Tests.antt =====
-- Runs on concrete inputs, and each theorem at an input that meets its hypotheses.
mod Ingress
mod Channels
mod Loaders
mod Selection
mod Enrichment
mod Harness
mod Writers
mod Cli
mod Open
mod Scan
mod Catalog
mod Output
