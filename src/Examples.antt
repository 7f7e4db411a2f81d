-- ===== src/Examples.antt =====
-- Tests of the definitions on concrete inputs, and the theorems at inputs that meet their hypotheses.
mod Mock
mod QueryTests
mod QueryWitnesses
mod ToolWitnesses
mod MockServer
mod ServerWitnesses
mod MockWeb
mod TestWitness
mod TypedWitnesses
mod MainWitnesses
mod ProxyWitnesses
mod LoginWitness
mod CatalogWitnesses
mod CommandWitnesses
