-- ===== src/Engine/Operators/DictLookup/Dictionary.antt =====
-- Lookups in a dictionary that `IndexedPackedStrings` packed.
use locust_db.Prelude.{
  ℕ, zero, suc, ◌+◌, ◌-◌, ◌≤◌, ◌*◌, ◌^◌, ◌≡◌, ◌≢◌, ◌↔◌, ◌⊎◌, refl, ap, sym, ◌∙◌, Bool, true,
  Bool-cases, Option, none, some, Option-cases, inl, inr, List, [], ◌∷◌, ◌++◌, append-nil,
  append_assoc, arith, length, length-append, get_elem?, if◌then◌else◌, All,
}
use locust_db.Prelude.Int.{ℤ, pos, negsuc}
use locust_db.Stringpack.{Bytes}
use locust_db.Stringpack.IndexedPackedStrings.{default, read_word, push_all}
use locust_db.Stringpack.IndexedPackedStrings.Roundtrip.{
  concat, layout, Fits, read_word_lem, push_all_lem,
}
use locust_db.Engine.Operators.DictLookup.{
  lookup_all, execute, bytes_eq, find_from, execute_inverse,
}

pub bytes_eq_iff : (xs ys : Bytes) → (bytes_eq xs ys ≡ true) ↔ (xs ≡ ys)
unfolding bytes_eq
bytes_eq_iff [] [] = (λ _. refl, λ _. refl)
bytes_eq_iff [] (y ∷ ys) = (λ h. cc, λ h. cc)
bytes_eq_iff (x ∷ xs) [] = (λ h. cc, λ h. cc)
bytes_eq_iff (x ∷ xs) (y ∷ ys) =
    (λ h. ground (arith, bytes_eq_iff xs ys), λ h. ground (arith, bytes_eq_iff xs ys))

-- What the words of the strings `ss` read, entry by entry, from the data with `pre` before them.
read_entry : Bytes → List Bytes → ℕ → Option Bytes
read_entry pre ss i = elim (get_elem? (layout (length pre) ss) i) [
  | none ↦ none
  | some w ↦ read_word (pre ++ concat ss) w
]

read_entry_lem :
    (pre : Bytes) (ss : List Bytes) (i : ℕ)
    → Fits (length pre) ss
    → read_entry pre ss i ≡ get_elem? ss i
unfolding read_entry
read_entry_lem pre [] i f = refl
read_entry_lem pre (t ∷ ss) zero f =
    ap (λ b. read_word b (length pre * 2 ^ 24 + length t)) (sym (append_assoc pre t (concat ss)))
    ∙ read_word_lem pre t (concat ss) f.0
read_entry_lem pre (t ∷ ss) (suc i) f = ground (
  arith,
  append_assoc pre t (concat ss),
  length-append pre t,
  read_entry_lem (pre ++ t) ss i (rw (length-append pre t) f.2),
)

-- The words and the data of a dictionary of these strings.
abbrev pub words : List Bytes → List ℕ
words ss = (push_all default ss).words

abbrev pub store : List Bytes → Bytes
store ss = (push_all default ss).backing_store

-- The strings at these indices, if all are in range.
abbrev pub gather {ℓ} : {A : Type ℓ} → List A → List ℕ → Option (List A)
gather xs [] = some []
gather xs (i ∷ is) = elim (get_elem? xs i) [
  | none ↦ none
  | some x ↦ elim (gather xs is) [ none ↦ none | some ys ↦ some (x ∷ ys) ]
]

abbrev prepend {ℓ} : {A : Type ℓ} → List A → Option (List A) → Option (List A)
prepend out none = none
prepend out (some ys) = some (out ++ ys)

lookup_all_lem :
    (ss : List Bytes) (indices : List ℕ) (out : List Bytes)
    → Fits 0 ss
    → lookup_all (layout 0 ss) (concat ss) indices out ≡ prepend out (gather ss indices)
unfolding lookup_all read_entry
lookup_all_lem ss [] out f = ground (arith, append-nil out)
lookup_all_lem ss (i ∷ indices) out f = grind (
  arith,
  read_entry_lem [] ss i f,
  λ (s : Bytes). lookup_all_lem ss indices (out ++ s ∷ []) f,
  λ (s : Bytes) (ys : List Bytes). append_assoc out (s ∷ []) ys,
)

words-eq : (ss : List Bytes) → Fits 0 ss → words ss ≡ layout 0 ss
words-eq ss f = ap (λ ps. ps.words) (push_all_lem [] [] ss f)

store-eq : (ss : List Bytes) → Fits 0 ss → store ss ≡ concat ss
store-eq ss f = ap (λ ps. ps.backing_store) (push_all_lem [] [] ss f)

-- On a packed dictionary, `DictLookup` writes the strings at the indices, in their order, behind
-- what the output held (nothing when it streams), and it panics if an index is out of range.
pub execute_lem :
    (stream : Bool) (ss : List Bytes) (indices : List ℕ) (output : List Bytes)
    → Fits 0 ss
    → execute stream (words ss) (store ss) indices output
      ≡ prepend (if stream then [] else output) (gather ss indices)
unfolding execute
execute_lem stream ss indices output f =
    rw (words-eq ss f, store-eq ss f) (lookup_all_lem ss indices (if stream then [] else output) f)

-- The first index of a string.
position : Bytes → List Bytes → ℕ → Option ℕ
position s [] i = none
position s (t ∷ ts) i = if bytes_eq t s then some i else position s ts (i + 1)

find_from-position :
    (pre : Bytes) (ss : List Bytes) (s : Bytes) (i : ℕ)
    → Fits (length pre) ss
    → find_from (layout (length pre) ss) (pre ++ concat ss) s i
      ≡ some (elim (position s ss i) [ none ↦ negsuc 0 | some k ↦ pos k ])
unfolding find_from position
find_from-position pre [] s i f = refl
find_from-position pre (t ∷ ss) s i f =
    let tail = find_from-position (pre ++ t) ss s (i + 1) (rw (length-append pre t) f.2) in
    let head = read_word_lem pre t (concat ss) f.0 in
    ground (arith, append_assoc pre t (concat ss), length-append pre t, tail, head)

position-get_elem? :
    (ss : List Bytes) (s : Bytes) (i k : ℕ)
    → position s ss i ≡ some k
    → (i ≤ k) × (get_elem? ss (k - i) ≡ some s)
unfolding position
position-get_elem? [] s i k h = cc
position-get_elem? (t ∷ ss) s i k h = elim (Bool-cases (bytes_eq t s)) [
  | inl e ↦ ground (arith, (bytes_eq_iff t s).0 e)
  | inr e ↦ ground (arith, position-get_elem? ss s (i + 1) k)
]

position-none : (ss : List Bytes) (s : Bytes) (i : ℕ) → position s ss i ≡ none → All (λ t. t ≢ s) ss
unfolding position
position-none [] s i h = tt
position-none (t ∷ ss) s i h =
    (λ e. ground (arith, (bytes_eq_iff t s).1 e), position-none ss s (i + 1) (ground arith))

-- On a packed dictionary, `InverseDictLookup` does not panic. Its result is an index at which the
-- dictionary has the constant, or -1, and then the dictionary does not have it.
pub execute_inverse_lem :
    (ss : List Bytes) (s : Bytes)
    → Fits 0 ss
    → (r : ℤ) × (execute_inverse (words ss) (store ss) s ≡ some r)
      × (((k : ℕ) × (r ≡ pos k) × (get_elem? ss k ≡ some s))
          ⊎ ((r ≡ negsuc 0) × All (λ t. t ≢ s) ss))
unfolding execute_inverse
execute_inverse_lem ss s f =
    let run = find_from-position [] ss s 0 f in
    rw (words-eq ss f, store-eq ss f)
      (elim (Option-cases (position s ss 0)) [
        | inl e ↦ (negsuc 0, run ∙ rw e refl, inr (refl, position-none ss s 0 e))
        | inr (k, e) ↦
            (pos k, run ∙ rw e refl, inl (k, refl, ground (arith, position-get_elem? ss s 0 k e)))
      ])
