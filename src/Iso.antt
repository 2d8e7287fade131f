-- ===== src/Iso.antt =====
-- playerisobmff: the boxes of an ISO media file, read from a buffer, changed in place and truncated.
pub mod Fields
pub mod Leaves
pub mod Boxes
pub mod Buffer
pub mod Truncate
mod Tests
