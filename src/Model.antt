-- ===== src/Model.antt =====
-- model: the events that the components pass on, as far as the modelled code reads or writes them.
pub mod Float64
pub mod Event
