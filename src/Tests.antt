-- ===== src/Tests.antt =====
-- Runs of the definitions on inputs that can be followed in clint.py, and the theorems at inputs
-- where their hypotheses hold.
mod Regexes
mod Reports
mod States
mod Checks
mod Setup
mod Runs
mod Lines
mod Files
mod Choices
