-- ===== src/MemStore/Table/Partitions.antt =====
-- src/mem_store/table.rs: the map of a table's partitions, numbered from 0, and their rows.
use locust_db.Prelude.{
  ℕ, zero, suc, ◌+◌, ◌≡◌, refl, sym, ap, subst, ◌∙◌, false, inl, inr, Bool-cases, some, List, [],
  ◌∷◌, ◌++◌, map, length, length-append, ◌==◌, arith,
}
use locust_db.Prelude.Arrays.{sum, range_from, range_from-append}
use locust_db.Errors.{Result, ok, ok-injective, bind_inv, ◌>>=◌}
use locust_db.Stringpack.{Bytes}
use locust_db.Ingest.RawCol.{MixedCol}
use locust_db.Ingest.RawCol
use locust_db.Ingest.Buffer.{Buffer, lookup}
use locust_db.Ingest.Buffer.Rows.{IsAligned}
use locust_db.Engine.Operators.DictLookup.Dictionary.{bytes_eq_iff}
use locust_db.MemStore.Column.{Column}
use locust_db.MemStore.Lru.{ColumnKey}
use locust_db.MemStore.Partition.{Partition, new, finalize_all, from_buffer}
use locust_db.MemStore.RawCol.Columns.{HasRows}
use locust_db.MemStore.Table.{insert, get}

abbrev pub ids : List (ℕ × Partition) → List ℕ
ids partitions = map (λ entry. entry.0) partitions

abbrev pub partition_rows : List (ℕ × Partition) → ℕ
partition_rows partitions = sum (λ entry. entry.1.len) partitions

head_tail : (k i : ℕ) (ks is : List ℕ) → (k ∷ ks) ≡ (i ∷ is) → (k ≡ i) × (ks ≡ is)
head_tail k i ks is h = (cc, cc)

some_injective {ℓ} : {A : Type ℓ} {a b : A} → some a ≡ some b → a ≡ b
some_injective h = cc

-- A new number, behind those that there are.
pub insert_fresh :
    (i n : ℕ) (partition : Partition) (partitions : List (ℕ × Partition))
    → ids partitions ≡ range_from i n
    → insert (i + n) partition partitions ≡ partitions ++ (i + n, partition) ∷ []
unfolding insert
insert_fresh i n partition [] h = refl
insert_fresh i zero partition ((k, p) ∷ partitions) h = cc
insert_fresh i (suc n) partition ((k, p) ∷ partitions) h =
    let (same, rest) = head_tail k i (ids partitions) (range_from (i + 1) n) h in
    let e : i + suc n ≡ i + 1 + n = omega arith in
    let other : (k == i + 1 + n) ≡ false = ground arith in
    subst
      (λ m. insert m partition ((k, p) ∷ partitions) ≡ ((k, p) ∷ partitions) ++ (m, partition) ∷ [])
      (sym e) (rw other (ap (◌∷◌ (k, p)) (insert_fresh (i + 1) n partition partitions rest)))

pub sum-append {ℓ} :
    {A : Type ℓ} (w : A → ℕ) (xs ys : List A) → sum w (xs ++ ys) ≡ sum w xs + sum w ys
sum-append w [] ys = omega arith
sum-append w (x ∷ xs) ys = omega (arith, sum-append w xs ys)

map-append {ℓ κ} :
    {A : Type ℓ} {B : Type κ} (f : A → B) (xs ys : List A) → map f (xs ++ ys) ≡ map f xs ++ map f ys
map-append f [] ys = refl
map-append f (x ∷ xs) ys = ap (◌∷◌ (f x)) (map-append f xs ys)

-- The numbers stay those from 0 when a partition is added with the next.
pub ids-insert :
    (partition : Partition) (partitions : List (ℕ × Partition))
    → ids partitions ≡ range_from 0 (length partitions)
    → (ids (insert (length partitions) partition partitions)
        ≡ range_from 0 (length (insert (length partitions) partition partitions)))
      × (partition_rows (insert (length partitions) partition partitions)
          ≡ partition_rows partitions + partition.len)
ids-insert partition partitions h =
    let n = length partitions in
    let zero_n : 0 + n ≡ n = omega arith in
    let added : insert n partition partitions ≡ partitions ++ (n, partition) ∷ [] =
      subst (λ k. insert k partition partitions ≡ partitions ++ (k, partition) ∷ []) zero_n
        (insert_fresh 0 n partition partitions h) in
    rw added (
      map-append (λ (entry : ℕ × Partition). entry.0) partitions ((n, partition) ∷ [])
          ∙ ap (λ is. is ++ n ∷ []) h
          ∙ subst (λ k. range_from 0 n ++ k ∷ [] ≡ range_from 0 (n + 1)) zero_n
              (range_from-append 0 n 1)
          ∙ ap (range_from 0) (sym (length-append partitions ((n, partition) ∷ []))),
      sum-append (λ (entry : ℕ × Partition). entry.1.len) partitions ((n, partition) ∷ [])
          ∙ omega arith,
    )

-- A partition is replaced by one of as many rows.
pub replace_lem :
    (id : ℕ) (old partition : Partition) (partitions : List (ℕ × Partition))
    → get id partitions ≡ some old
    → partition.len ≡ old.len
    → (ids (insert id partition partitions) ≡ ids partitions)
      × (length (insert id partition partitions) ≡ length partitions)
      × (partition_rows (insert id partition partitions) ≡ partition_rows partitions)
unfolding insert get
replace_lem id old partition [] h e = cc
replace_lem id old partition ((k, p) ∷ partitions) h e = elim (Bool-cases (k == id)) [
  | inl t ↦
      let same : p ≡ old = some_injective (rw t at h) in
      rw t (refl, refl, ap (λ n. n + partition_rows partitions) (e ∙ ap (λ p. p.len) (sym same)))
  | inr f ↦
      let (is, l, rows) = replace_lem id old partition partitions (rw f at h) e in
      rw f (ap (◌∷◌ k) is, ap suc l, ap (λ n. p.len + n) rows)
]

module _ (heap_size : Column → ℕ) (finalize : MixedCol → Bytes → Result Column)
    (keeps : (col : MixedCol) (name : Bytes) → HasRows (finalize col name) (RawCol.len col)) where
  first_column :
      (id : ℕ) (cols : List (Bytes × MixedCol)) (n : ℕ) (made : Partition × List ColumnKey)
      → (finalize_all heap_size finalize cols >>= λ cols. new heap_size id cols) ≡ ok made
      → ((name : Bytes) (col : MixedCol) → lookup name cols ≡ some col → RawCol.len col ≡ n)
      → made.0.len ≡ n
  unfolding finalize_all new lookup
  first_column id [] n made h k = cc
  first_column id ((name, raw_col) ∷ cols) n made h k =
      let found : lookup name ((name, raw_col) ∷ cols) ≡ some raw_col =
        rw ((bytes_eq_iff name name).1 refl) refl in
      let (all, e, f) =
        bind_inv (finalize_all heap_size finalize ((name, raw_col) ∷ cols)) _ made h in
      let (col, g, e') = bind_inv (finalize raw_col name) _ all e in
      let (rest, _, e'') = bind_inv (finalize_all heap_size finalize cols) _ all e' in
      let made_eq = subst (λ all. new heap_size id all ≡ ok made) (sym (ok-injective e'')) f in
      ap (λ (m : Partition × List ColumnKey). m.0.len) (sym (ok-injective made_eq))
      ∙ keeps raw_col name col g
      ∙ k name raw_col found

  -- A partition that is made of an aligned buffer has its rows.
  pub from_buffer-len :
      (id : ℕ) (buffer : Buffer) (made : Partition × List ColumnKey)
      → from_buffer heap_size finalize id buffer ≡ ok made
      → IsAligned buffer
      → made.0.len ≡ buffer.length
  unfolding from_buffer
  from_buffer-len id buffer made h aligned =
      first_column id buffer.cols buffer.length made h (λ name col e. aligned.aligned name col e)
