-- ===== src/LruCache/Uses.antt =====
-- Sequences of calls of an LRUCache that use pairs and remove none, so that only its capacity makes
-- it give up entries.
use ezbake_common.LruCache.Run.{Call}

pub data Use {ℓ} (K V : Type ℓ) : Type ℓ where
  get : K → Use K V
  put : K → V → Use K V

abbrev pub call_of {ℓ} : {K V : Type ℓ} → Use K V → Call K V
call_of (get k) = Call.get k
call_of (put k v) = Call.put k v
