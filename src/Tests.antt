-- ===== src/Tests.antt =====
-- Runs of the theorems on small inputs.
mod Data
mod Grid
mod Store
mod Indices
mod Topology
mod Views
mod Loading
mod Addresses
mod Requests
mod Answers
mod Management
mod Filters
mod Visits
mod Panels
mod Canvases
