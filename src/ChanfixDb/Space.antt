-- ===== src/ChanfixDb/Space.antt =====
-- _chanfixdb_del_space and _chanfixdb_get_space of modules/chanfixdb/chanfixdb.c. A file that is too
-- short gets a megabyte to spare.
use efnet_services.Common.{ℕ}
use efnet_services.Run.{Call}
use efnet_services.Region
use efnet_services.ChanfixDb.Store.{ChanfixDb, Platform, on_region}

-- _chanfixdb_del_space
unfoldable pub del_space : ℕ → ℕ → ChanfixDb → ChanfixDb
del_space pos size db = record db { region = Region.del_space pos size db.region }

-- _chanfixdb_get_space
unfoldable pub get_space : Platform → ℕ → Call ChanfixDb (ℕ × ℕ)
get_space calls wanted = on_region (Region.get_space calls.disk 0x10_0000 wanted)
