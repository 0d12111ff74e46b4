-- ===== src/Tests.antt =====
-- Concrete instances of the interfaces, and the theorems applied to concrete inputs.
mod Instances
mod Core
mod Recorder
mod Ads
mod Mock
mod Plot
mod JsonTree
mod Import
mod Export
