-- ===== src/Examples.antt =====
-- Each theorem at a concrete input: a small deployment with toy crates that obey the laws of the real
-- ones.
mod World
mod Parts
mod Flow
mod Forced
mod Pages
mod Jobs
mod Inventory
mod Demand
mod Access
mod Explained
mod Leaves
mod Projects
mod Inputs
