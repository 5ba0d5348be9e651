-- ===== src/Tests.antt =====
-- The tests: the theorems applied to concrete inputs, and runs of the program.
pub mod Concrete
mod Signals
mod Logs
mod Dbcs
mod Windows
mod Tables
mod Loads
mod Dialogs
mod Menus
mod Plots
