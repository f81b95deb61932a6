-- ===== src/Tests.antt =====
-- Test data, and the theorems at concrete inputs.
mod Data
mod Bitmaps
mod RoutePaths
mod Destinations
mod Messages
mod Rewrites
mod Roas
mod Updates
mod AdjRibs
mod Policies
mod Packing
mod Tables
