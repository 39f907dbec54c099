-- ===== src/Samples.antt =====
-- Concrete values at which the theorems are applied: a Redis, a codec of events and a pipeline.
pub mod WorkerTests
pub mod MockTests
pub mod ProcessTests
pub mod PostedTests
pub mod ExclusionTests
pub mod RunTests
pub mod PipelineTests
pub mod ThinkTests
pub mod ApiTests
pub mod Codec
pub mod Services
pub mod StreamTests
pub mod JobTests
pub mod KeepaliveTests
pub mod RouteTests
pub mod EventTests
pub mod BrokerTests
pub mod Paths
pub mod PartTests
