-- ===== src/Tests.antt =====
-- The models run on concrete inputs, and the theorems applied there.
mod Csv
mod Cycles
mod Legs
mod Trips
mod Target
mod Auth
mod Recommendations
mod Corrections
mod NextDepartures
mod Queries
mod Session
mod Upload
mod Ops
mod Map
mod RouteEdit
mod Calibration
