-- ===== src/Engine/Operators/DictLookup.antt =====
-- src/engine/operators/dict_lookup.rs: from dictionary indices to strings, and from a string to its
-- index. The words of the dictionary are those of `IndexedPackedStrings`.
pub mod Dictionary
use locust_db.Prelude.{
  ℕ, ◌+◌, Bool, true, false, ◌&&◌, Option, none, some, List, [], ◌∷◌, ◌++◌, get_elem?, ◌==◌,
  if◌then◌else◌,
}
use locust_db.Prelude.Int.{ℤ, pos, negsuc}
use locust_db.Stringpack.{Bytes}
use locust_db.Stringpack.IndexedPackedStrings.{read_word}

-- The loop of `DictLookup::execute` over the indices that are left; `none` is a panic.
unfoldable pub lookup_all :
    (dict_indices : List ℕ) (dict_data : Bytes) (indices : List ℕ)
    → List Bytes
    → Option (List Bytes)
lookup_all dict_indices dict_data [] output = some output
lookup_all dict_indices dict_data (i ∷ indices) output = elim (get_elem? dict_indices i) [
  | none ↦ none
  | some offset_len ↦ elim (read_word dict_data offset_len) [
    | none ↦ none
    | some string ↦ lookup_all dict_indices dict_data indices (output ++ string ∷ [])
  ]
]

unfoldable pub execute :
    (stream : Bool) (dict_indices : List ℕ) (dict_data : Bytes) (indices : List ℕ)
    → List Bytes
    → Option (List Bytes)
unfolding lookup_all
execute stream dict_indices dict_data indices output =
    lookup_all dict_indices dict_data indices (if stream then [] else output)

-- `==` of slices of bytes
unfoldable pub bytes_eq : Bytes → Bytes → Bool
bytes_eq [] [] = true
bytes_eq [] (y ∷ ys) = false
bytes_eq (x ∷ xs) [] = false
bytes_eq (x ∷ xs) (y ∷ ys) = x == y && bytes_eq xs ys

-- `InverseDictLookup::execute`: the loop from index `i`, then from the start.
unfoldable pub find_from : (dict_indices : List ℕ) (dict_data constant : Bytes) (i : ℕ) → Option ℤ
find_from [] dict_data constant i = some (negsuc 0)
find_from (offset_len ∷ rest) dict_data constant i = elim (read_word dict_data offset_len) [
  | none ↦ none
  | some string ↦
      if bytes_eq string constant then some (pos i) else find_from rest dict_data constant (i + 1)
]

unfoldable pub execute_inverse : (dict_indices : List ℕ) (dict_data constant : Bytes) → Option ℤ
unfolding find_from
execute_inverse dict_indices dict_data constant = find_from dict_indices dict_data constant 0
