-- ===== src/ChanfixDb.antt =====
-- modules/chanfixdb
pub mod Sorted
pub mod Store
pub mod Hash
pub mod Space
pub mod Channel
pub mod User
