-- ===== src/Samples.antt =====
-- Runs on concrete inputs, and each theorem with hypotheses at an input that meets them.
mod Tries
mod Scopes
mod Texts
mod Builds
mod Rules
mod Resolvers
mod Configs
mod Packages
mod Providers
mod Sweeps
mod Jars
mod Setups
