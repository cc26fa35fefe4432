-- ===== src/Examples.antt =====
-- The theorems at concrete inputs.
mod Drivers
mod Elections
mod Hashes
mod Lists
mod Maps
mod Services
mod Shells
mod Slaves
mod Sockets
mod Stations
mod Trees
mod Vectors
