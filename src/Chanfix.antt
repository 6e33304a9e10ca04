-- ===== src/Chanfix.antt =====
-- modules/chanfix/mod_chanfix.c: what a check counts for a channel, the clients of a channel with the
-- best scores, and the score that a pass of a fix asks for.
pub mod Scores
pub mod Needed
pub mod Modes
pub mod Counted
pub mod Check
pub mod Seen
pub mod Rank
pub mod Top
