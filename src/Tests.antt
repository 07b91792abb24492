-- ===== src/Tests.antt =====
-- Tests of the models, and the theorems at concrete inputs.
mod StateTests
mod RcaTests
mod BufferTests
mod WorkflowTests
mod AlertTests
mod WorkerTests
mod BucketTests
mod RateTests
mod IngestTests
mod DispatchTests
mod DashboardTests
mod SignalTests
