-- ===== src/Viewer.antt =====
-- gui: the viewer, as far as it does not draw. Its windows are Dear ImGui's.
pub mod Format
pub mod Link
pub mod Actions
