-- ===== src/Render.antt =====
-- internal/render: from events to output.
pub mod Order
