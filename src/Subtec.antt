-- ===== src/Subtec.antt =====
-- subtec/libsubtec: the packets of the subtitle protocol, the channels that number them, and the
-- sender that queues and writes them.
pub mod Packet
pub mod Kinds
pub mod Channel
pub mod Frame
pub mod Sender
pub mod Styles
mod Tests
