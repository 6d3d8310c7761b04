-- ===== src/Tests.antt =====
-- Concrete inputs, and the theorems at them.
mod Memory
mod Unary
mod Samples
mod Lists
mod Requests
mod Cached
mod Refreshes
mod Listing
mod Markers
mod Configs
mod Pages
mod Cron
mod Sites
mod Worlds
mod Starts
mod Maps
mod Links
mod Registries
