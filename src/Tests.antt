-- ===== src/Tests.antt =====
-- The theorems at concrete inputs, and tests of the definitions.
mod Sems
mod Segment
mod Overseer
mod Processes
mod Console
mod Statistics
mod Sockets
mod Perl
mod Module
mod Wrapper
mod Orders
mod Shared
mod Start
mod Texts
