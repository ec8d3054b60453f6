-- ===== src/Protocol/Tests.antt =====
-- Runs of the protocol layers (src/protocol.cpp) on concrete inputs.
pub mod Layers
pub mod ArqRuns
pub mod DebugArqRuns
