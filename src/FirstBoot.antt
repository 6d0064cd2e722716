-- ===== src/FirstBoot.antt =====
-- ubuntu/t630_first_boot.py: the checks and the steps of the first-boot setup. The machine is its
-- files, its account database, its groups and the link of its time zone; what a command does
-- and which steps of a write fail are arguments.
pub mod Profile
pub mod Machine
pub mod Apply
pub mod Main
mod Scenarios
