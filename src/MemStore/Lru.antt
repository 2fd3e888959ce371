-- ===== src/MemStore/Lru.antt =====
-- src/mem_store/lru.rs: which columns were used last. The cache of the lru crate is an interface:
-- its operations, and what is documented of its keys.
use locust_db.Prelude.{ℕ, ◌≡◌, Bool, ◌||◌, ◌&&◌, not, Option, none, some, ◌==◌}
use locust_db.Stringpack.{Bytes}
use locust_db.Engine.Operators.DictLookup.{bytes_eq}

-- `(PartitionID, String)`
abbrev pub ColumnKey : Type 0
ColumnKey = ℕ × Bytes

abbrev pub key_eq : ColumnKey → ColumnKey → Bool
key_eq a b = (a.0 == b.0) && bytes_eq a.1 b.1

-- `LruCache<ColumnKey, ()>`: `get` moves a key to the front, `put` adds it there.
pub record LruCache {ℓ} (Cache : Type ℓ) : Type ℓ where
  pub unbounded : Cache
  pub get : Cache → ColumnKey → Cache
  pub put : Cache → ColumnKey → Cache
  pub pop : Cache → ColumnKey → Cache
  pub pop_lru : Cache → Option (ColumnKey × Cache)
  pub contains : Cache → ColumnKey → Bool
  pub contains-put :
      (cache : Cache) (a b : ColumnKey)
      → contains (put cache a) b ≡ (key_eq a b || contains cache b)
  pub contains-pop :
      (cache : Cache) (a b : ColumnKey)
      → contains (pop cache a) b ≡ (not (key_eq a b) && contains cache b)

module _ {ℓ} {Cache : Type ℓ} (lru : LruCache Cache) where
  unfoldable pub touch : Cache → ColumnKey → Cache
  touch cache column = lru.get cache column

  unfoldable pub put : Cache → ColumnKey → Cache
  put cache column = lru.put cache column

  unfoldable pub remove : Cache → ColumnKey → Cache
  remove cache column = lru.pop cache column

  unfoldable pub evict : Cache → Option ColumnKey × Cache
  evict cache = elim (lru.pop_lru cache) [
    | none ↦ (none, cache)
    | some (key, rest) ↦ (some key, rest)
  ]
