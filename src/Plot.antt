-- ===== src/Plot.antt =====
-- The plot component (plot/): the persistable layout.
pub mod Layout
