-- ===== src/Tests.antt =====
-- Runs of the model at concrete inputs, and instances of the theorems.
mod Open
mod OpenBuilder
mod Runs
mod EngineExamples
mod PipelineExamples
mod BuilderExamples
mod EventStoreExamples
mod DataFlowExamples
mod BuildExamples
mod PluginExamples
