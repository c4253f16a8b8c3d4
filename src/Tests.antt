-- ===== src/Tests.antt =====
-- Runs of the development's functions and uses of its theorems at concrete inputs.
pub mod Fixture
pub mod Controller
pub mod System
pub mod Codecs
pub mod EnvFile
pub mod Spec
pub mod StageOps
pub mod Hpack
pub mod Messages
pub mod Frames
