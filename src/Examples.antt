-- ===== src/Examples.antt =====
-- The theorems at concrete inputs.
mod Data
mod Steps
mod Parts
mod Files
mod Equality
mod Builders
mod Children
mod StatefulSets
mod Composition
mod Setup
mod Steady
