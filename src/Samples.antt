-- ===== src/Samples.antt =====
-- Concrete runs of the theorems.
mod Jobs
mod Paths
mod Values
mod Trees
mod Tools
mod Models
mod Submissions
mod Endings
mod Machines
mod Loads
