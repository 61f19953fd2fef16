-- ===== src/Tests.antt =====
-- Runs of the program in small worlds, at which the theorems of the other modules apply.
pub mod Worlds
pub mod ServicesRuns
pub mod UiRuns
pub mod TabRuns
pub mod AuthRuns
pub mod PageRuns
pub mod DetailRuns
pub mod ClickRuns
pub mod ListRuns
