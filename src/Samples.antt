-- ===== src/Samples.antt =====
-- Runs of the definitions on small inputs, and the theorems at concrete inputs.
mod Topics
mod Fields
mod Brokers
mod Clients
mod Tables
mod Safety
mod Programs
