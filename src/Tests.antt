-- ===== src/Tests.antt =====
-- Runs of the definitions at concrete inputs, and the theorems applied to them.
mod AuthCases
mod CacheCases
mod ProviderCases
mod AdminCases
mod AnswerCases
mod RoutingCases
mod AgainCases
mod BenchmarkCases
mod TaggingCases
mod HandlerCases
mod SettingsCases
mod GatewayCases
