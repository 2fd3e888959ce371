-- ===== src/MemStore/Partition/Residency.antt =====
-- src/mem_store/partition.rs: which columns are resident, and that the cache knows them.
use locust_db.Prelude.{
  ◌≡◌, refl, sym, ap, ◌∙◌, Bool, true, false, inl, inr, Bool-cases, Option, none, some,
  Option-cases, List, [], ◌∷◌, ==_iff, All, All-imp, arith,
}
use locust_db.Stringpack.{Bytes}
use locust_db.Engine.Operators.DictLookup.{bytes_eq}
use locust_db.Engine.Operators.DictLookup.Dictionary.{bytes_eq_iff}
use locust_db.MemStore.Column.{Column}
use locust_db.MemStore.Lru.{ColumnKey, LruCache, key_eq, put, remove}
use locust_db.MemStore.Partition.{ColumnHandle, name, load_handle, unload_handle, restore, evict}

abbrev has_column : Option Column → Bool
has_column none = false
has_column (some col) = true

-- No two handles of one name.
abbrev pub HasDistinctColumns : List ColumnHandle → Type 0
HasDistinctColumns [] = Unit
HasDistinctColumns (handle ∷ handles) =
    All (λ h. bytes_eq (name handle) (name h) ≡ false) handles × HasDistinctColumns handles

key_eq_self : (key : ColumnKey) → key_eq key key ≡ true
key_eq_self key = ground (arith, (==_iff key.0 key.0).1 refl, (bytes_eq_iff key.1 key.1).1 refl)

key_eq-names : (a b : ColumnKey) → bytes_eq a.1 b.1 ≡ false → key_eq a b ≡ false
key_eq-names a b h = ground arith

true-false : true ≡ false → ⊥
true-false h = cc

other_way : (a b : Bytes) → bytes_eq a b ≡ false → bytes_eq b a ≡ false
other_way a b h = elim (Bool-cases (bytes_eq b a)) [
  | inr f ↦ f
  | inl t ↦
      let e = (bytes_eq_iff a b).1 (sym ((bytes_eq_iff b a).0 t)) in absurd (true-false (sym e ∙ h))
]

module _ {ℓ} {Cache : Type ℓ} (lru : LruCache Cache) where
  -- A handle is marked resident exactly if it has its column, and then the cache has its key.
  pub record IsKnown (cache : Cache) (handle : ColumnHandle) : Type 0 where
    pub held : handle.resident ≡ has_column handle.col
    pub cached : handle.resident ≡ true → lru.contains cache handle.key ≡ true

  abbrev pub AllKnown : Cache → List ColumnHandle → Type 0
  AllKnown cache handles = All (IsKnown cache) handles

  -- A cache that has every key that another has.
  abbrev Extends : Cache → Cache → Type 0
  Extends cache later =
      (key : ColumnKey) → lru.contains cache key ≡ true → lru.contains later key ≡ true

  IsKnown-Extends :
      (cache later : Cache) (handle : ColumnHandle)
      → Extends cache later
      → IsKnown cache handle
      → IsKnown later handle
  IsKnown-Extends cache later handle e k = record {
    held = k.held;
    cached = λ r. e handle.key (k.cached r);
  }

  put-Extends : (cache : Cache) (key : ColumnKey) → Extends cache (put lru cache key)
  unfolding put
  put-Extends cache key other h = ground (arith, lru.contains-put cache key other)

  -- The cache behind one handle of the name.
  put_missing : Cache → ColumnHandle → Cache
  put_missing cache handle = elim handle.col [ none ↦ put lru cache handle.key | some _ ↦ cache ]

  put_missing-Extends :
      (cache : Cache) (handle : ColumnHandle) → Extends cache (put_missing cache handle)
  unfolding put_missing
  put_missing-Extends cache handle key h = elim (Option-cases handle.col) [
    | inl e ↦ rw e (put-Extends cache handle.key key h)
    | inr (col, e) ↦ rw e h
  ]

  put_missing-contains :
      (cache : Cache) (handle : ColumnHandle)
      → IsKnown cache handle
      → lru.contains (put_missing cache handle) handle.key ≡ true
  unfolding put_missing put
  put_missing-contains cache handle k = elim (Option-cases handle.col) [
    | inl e ↦
        rw e (ground (arith, lru.contains-put cache handle.key handle.key, key_eq_self handle.key))
    | inr (col, e) ↦ rw e (k.cached (k.held ∙ ap has_column e))
  ]

  restore-Extends :
      (col : Column) (handles : List ColumnHandle) (cache : Cache)
      → Extends cache (restore lru col handles cache).1
  unfolding restore put_missing
  restore-Extends col [] cache key h = h
  restore-Extends col (handle ∷ handles) cache key h =
      elim (Bool-cases (bytes_eq (name handle) col.name)) [
        | inl t ↦ rw t (
            restore-Extends col handles (put_missing cache handle) key
              (put_missing-Extends cache handle key h))
        | inr f ↦ rw f (restore-Extends col handles cache key h)
      ]

  restore-AllKnown :
      (col : Column) (handles : List ColumnHandle) (cache : Cache)
      → AllKnown cache handles
      → AllKnown (restore lru col handles cache).1 (restore lru col handles cache).0
        × All
            (λ h. bytes_eq (name h) col.name ≡ true → h.col ≡ some col)
            (restore lru col handles cache).0
  unfolding restore load_handle put_missing
  restore-AllKnown col [] cache h = (tt, tt)
  restore-AllKnown col (handle ∷ handles) cache h =
      elim (Bool-cases (bytes_eq (name handle) col.name)) [
        | inl t ↦
            let cache' = put_missing cache handle in
            let (rest, loaded) = restore-AllKnown col handles cache' (
              All-imp _ _ handles
                (λ other. IsKnown-Extends cache cache' other (put_missing-Extends cache handle))
                h.1) in
            let known =
              restore-Extends col handles cache' handle.key
                (put_missing-contains cache handle h.0) in
            rw t ((record { held = refl; cached = λ _. known }, rest), (λ _. refl, loaded))
        | inr f ↦
            let (rest, loaded) = restore-AllKnown col handles cache h.1 in
            rw f (
              (
                IsKnown-Extends cache (restore lru col handles cache).1 handle
                    (restore-Extends col handles cache) h.0,
                rest,
              ),
              (λ e. absurd (true-false (sym e ∙ f)), loaded),
            )
      ]

  remove-other :
      (cache : Cache) (key other : ColumnKey)
      → bytes_eq key.1 other.1 ≡ false
      → lru.contains cache other ≡ true
      → lru.contains (remove lru cache key) other ≡ true
  unfolding remove
  remove-other cache key other n h =
      ground (arith, lru.contains-pop cache key other, key_eq-names key other n)

  others_known :
      (key : ColumnKey) (handles : List ColumnHandle) (cache : Cache)
      → All (λ h. bytes_eq key.1 (name h) ≡ false) handles
      → AllKnown cache handles
      → AllKnown (remove lru cache key) handles
  others_known key [] cache d h = tt
  others_known key (handle ∷ handles) cache d h = (
    record { held = h.0.held; cached = λ e. remove-other cache key handle.key d.0 (h.0.cached e) },
    others_known key handles cache d.1 h.1,
  )

  -- Keys of other names stay in the cache.
  evict-keeps :
      (col : Bytes) (handles : List ColumnHandle) (cache : Cache) (other : ColumnKey)
      → bytes_eq col other.1 ≡ false
      → lru.contains cache other ≡ true
      → lru.contains (evict lru col handles cache).1 other ≡ true
  unfolding evict
  evict-keeps col [] cache other n h = h
  evict-keeps col (handle ∷ handles) cache other n h =
      elim (Bool-cases (bytes_eq (name handle) col)) [
        | inl t ↦
            let same = (bytes_eq_iff (name handle) col).0 t in
            rw t (remove-other cache handle.key other (ap (λ c. bytes_eq c other.1) same ∙ n) h)
        | inr f ↦ rw f (evict-keeps col handles cache other n h)
      ]

  evict-AllKnown :
      (col : Bytes) (handles : List ColumnHandle) (cache : Cache)
      → HasDistinctColumns handles
      → AllKnown cache handles
      → AllKnown (evict lru col handles cache).1 (evict lru col handles cache).0
        × All (λ h. bytes_eq (name h) col ≡ true → h.col ≡ none) (evict lru col handles cache).0
  unfolding evict unload_handle
  evict-AllKnown col [] cache d h = (tt, tt)
  evict-AllKnown col (handle ∷ handles) cache d h = elim (Bool-cases (bytes_eq (name handle) col)) [
    | inl t ↦
        let same = (bytes_eq_iff (name handle) col).0 t in
        rw t (
          (
            record { held = refl; cached = λ e. absurd (true-false (sym e)) },
            others_known handle.key handles cache d.0 h.1,
          ),
          (
            λ _. refl,
            All-imp _ _ handles
                (λ other n e. absurd (
                  true-false (
                    sym e
                    ∙ ap (bytes_eq (name other)) (sym same)
                    ∙ other_way (name handle) (name other) n)))
                d.0,
          ),
        )
    | inr f ↦
        let (rest, gone) = evict-AllKnown col handles cache d.1 h.1 in
        let stays : IsKnown (evict lru col handles cache).1 handle = record {
          held = h.0.held;
          cached = λ e.
              evict-keeps col handles cache handle.key (other_way (name handle) col f)
                (h.0.cached e);
        } in
        rw f ((stays, rest), (λ e. absurd (true-false (sym e ∙ f)), gone))
  ]

  -- In a partition of distinct columns, where handles are marked resident exactly if they hold their
  -- column, and the keys of resident columns are in the cache: this stays so when a column is
  -- restored and when one is evicted. A restored column is then held by every handle of its name, an
  -- evicted one by none.
  pub restore-evict-AllKnown :
      (handles : List ColumnHandle) (cache : Cache)
      → HasDistinctColumns handles
      → AllKnown cache handles
      → ((col : Column)
          → AllKnown (restore lru col handles cache).1 (restore lru col handles cache).0
            × All
                (λ h. bytes_eq (name h) col.name ≡ true → h.col ≡ some col)
                (restore lru col handles cache).0)
        × ((col : Bytes)
            → AllKnown (evict lru col handles cache).1 (evict lru col handles cache).0
              × All
                  (λ h. bytes_eq (name h) col ≡ true → h.col ≡ none)
                  (evict lru col handles cache).0)
  restore-evict-AllKnown handles cache d h =
      (λ col. restore-AllKnown col handles cache h, λ col. evict-AllKnown col handles cache d h)
