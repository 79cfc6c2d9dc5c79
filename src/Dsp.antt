-- ===== src/Dsp.antt =====
-- lib/src/dsp: the graph of the packages' dependencies and its order.
pub mod Graph
pub mod Order
