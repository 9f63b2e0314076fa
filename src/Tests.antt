-- ===== src/Tests.antt =====
-- Runs of the definitions at concrete inputs, and the theorems applied there.
mod Fixtures
mod Days
mod Serving
mod Storing
mod Upstream
mod Sorting
mod Refreshing
mod Pooling
mod Saving
mod Settings
mod Late
mod Shared
mod Races
mod Restarting
mod Running
mod Launching
mod Figures
mod Stopping
