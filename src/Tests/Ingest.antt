-- ===== src/Tests/Ingest.antt =====
-- Runs of src/ingest/buffer.rs.
use locust_db.Prelude.{◌≡◌, refl, List, [], ◌∷◌, ◌++◌}
use locust_db.Prelude.Int.{pos}
use locust_db.Stringpack.{Bytes}
use locust_db.Engine.Operators.DictLookup.{bytes_eq}
use locust_db.Ingest.RawCol.{RawVal, int, str}
use locust_db.Ingest.Buffer.{empty, lookup, push_row, push_typed_cols}
use locust_db.Ingest.Buffer.Rows.{IsAligned, HasDistinctNames, cell, values_at, push_row-values_at}

abbrev row : List (Bytes × RawVal)
row = (97 ∷ [], int (pos 1)) ∷ (98 ∷ [], str (120 ∷ [])) ∷ []

empty-IsAligned : IsAligned empty
unfolding lookup
empty-IsAligned = record { aligned = λ name col e. cc }

distinct : HasDistinctNames row
unfolding bytes_eq
distinct = (refl, (refl, tt))

push_row-values_at_example :
    IsAligned (push_row empty row)
    × ((push_row empty row).length ≡ 1)
    × ((name : Bytes)
        → values_at name (push_row empty row) ≡ values_at name empty ++ cell name row ∷ [])
push_row-values_at_example = push_row-values_at empty row empty-IsAligned distinct

-- An insert of no columns sets the number of rows to 0.
forgotten : (push_typed_cols (push_row empty row) []).length ≡ 0
unfolding push_typed_cols
forgotten = refl
