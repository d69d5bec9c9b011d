-- ===== src/Programs.antt =====
-- The command-line programs leaf/main.c and branch/main.c around the two libraries.
pub mod LeafCli
pub mod BranchBroker
