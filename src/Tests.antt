-- ===== src/Tests.antt =====
-- Runs of the model at concrete inputs, and each theorem with hypotheses at an input where they hold.
mod Rings
mod Recording
mod Pass
mod Spelling
mod Recorded
mod Drawn
mod Mpsc
mod Threads
mod Messages
mod Sessions
mod Reports
mod Whole
