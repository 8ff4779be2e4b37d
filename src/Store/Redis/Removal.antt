-- ===== src/Store/Redis/Removal.antt =====
-- internal/store/db/redis/store.go: `RemoveFromStore` as an operation of the map.
use app_functions_sdk_go.Store.Contracts.Standard.{Standard}
use app_functions_sdk_go.Store.Redis.Represents.{Represents}
