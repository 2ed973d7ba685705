-- ===== src/Tests.antt =====
-- Runs of the modelled code on concrete inputs, and the theorems at such inputs.
mod World
mod Jobs
mod UseCases
mod Adapters
mod Tables
mod Cluster
mod Processing
mod Workers
mod Http
mod Files
mod Startup
