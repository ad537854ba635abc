-- ===== src/Tests.antt =====
-- Runs of the models at concrete inputs.
mod Status
mod Containers
mod Listing
mod Sizes
mod Cleaning
mod Allocation
mod Invoking
mod Journal
mod Reaping
mod Storing
