-- ===== src/System/Alive.antt =====
-- The operations that the call objects begin, and the events and callbacks that follow, counted.
pub mod Counts
pub mod Changes
pub mod Pool
pub mod Quiet
pub mod Found
pub mod Kinds
pub mod Invariant
pub mod AckCounts
pub mod Acks
pub mod AckEvents
pub mod Consumes
pub mod ConsumeEvents
pub mod Matches
pub mod Answers
pub mod MatchRounds
pub mod Sends
pub mod Producing
pub mod SendEvents
pub mod Callbacks
pub mod Steps
pub mod Started
pub mod Histories
