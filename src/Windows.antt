-- ===== src/Windows.antt =====
-- crates/camrtsp-capture/src/windows.rs, the capture backend for Windows. Media Foundation is not
-- modelled: what its calls answer is an input, and what they are asked for is a result. A channel is
-- the list of what was sent and not yet received.
pub mod H264
pub mod Formats
pub mod OutputType
pub mod Callbacks
pub mod Encoders
pub mod Synchronous
pub mod Activation
pub mod Worker
pub mod Pipeline
pub mod Camera
pub mod Sequences
pub mod Choice
pub mod Protocol
pub mod Frames
pub mod AnnexB
pub mod Overflow
pub mod Delivery
