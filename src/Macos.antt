-- ===== src/Macos.antt =====
-- crates/camrtsp-capture/src/lib.rs, the capture backend for macOS. AVFoundation and VideoToolbox are
-- not modelled: what their calls answer is an input, and what they are asked for is a result.
pub mod Avcc
pub mod Encoder
pub mod Devices
pub mod Pipeline
pub mod Camera
pub mod AvccRecord
pub mod Delivery
pub mod Keyframes
pub mod Preset
