-- ===== src/Examples.antt =====
-- Runs of the parts at concrete inputs, one module for each group of parts.
mod Board
mod Queues
mod Money
mod Plans
mod Flows
mod Access
mod Hiring
mod Stages
mod Graphs
mod Timing
mod Stepwise
mod Compacted
