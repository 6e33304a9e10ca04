-- ===== src/AdminDb.antt =====
-- modules/admindb: the accounts of administrators and the masks that they may log in from.
pub mod Store
pub mod Account
pub mod UserHost
