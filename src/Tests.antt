-- ===== src/Tests.antt =====
-- Runs of the code at concrete inputs.
pub mod Fixtures
mod CopyTests
mod HelperTests
mod RegistryTests
mod BucketTests
mod BarrelTests
mod UserTests
mod SpanTests
mod NodeTests
mod ChainTests
mod MakingTests
mod MadeTests
mod LinkTests
mod PrintTests
mod MenuTests
mod VectorTests
