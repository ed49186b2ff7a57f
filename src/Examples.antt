-- ===== src/Examples.antt =====
-- Concrete inputs: tests of the definitions, and each theorem with hypotheses at an input that
-- meets them.
mod Data
mod Memory
mod Mapping
mod Printing
mod Ingesting
mod Writing
mod Serving
mod Reading
mod Tables
mod Querying
mod Delivering
mod Answering
mod Starting
mod Telemetering
