-- ===== src/MemStore/Strings/Dictionary.antt =====
-- src/mem_store/strings.rs: the distinct strings of a column, their dictionary, and the indices.
use locust_db.Prelude.{
  ℕ, ◌+◌, ◌%◌, ◌≤◌, ◌<◌, ◌≡◌, refl, sym, subst, ap, Bool, Bool-cases, inl, inr, some, none,
  Option-cases, List, [], ◌∷◌, ◌++◌, append_assoc, All, arith, length, length-append, get_elem?,
  get_elem?-append_length, ◌==◌, All-imp, suc,
}
use locust_db.Prelude.Arrays.{count}
use locust_db.Errors.{ok}
use locust_db.Stringpack.{Bytes}
use locust_db.Engine.Operators.DictLookup.{bytes_eq}
use locust_db.Engine.Operators.DictLookup.Dictionary.{bytes_eq_iff, gather}
use locust_db.MemStore.Integers.{Width, width_8, width_16, width_32, max_value}
use locust_db.MemStore.Strings.{insert_set, unique_loop, build_dictionary, find, encode_strings}

-- How often a string stands in a list.
abbrev pub occurrences : Bytes → List Bytes → ℕ
occurrences s ts = count (λ t. bytes_eq t s) ts

count-insert_set :
    (p : Bytes → Bool) (s : Bytes) (ts : List Bytes) → count p ts ≤ count p (insert_set s ts)
unfolding insert_set
count-insert_set p s [] = omega arith
count-insert_set p s (t ∷ ts) = ground (arith, count-insert_set p s ts)

occurrences-insert_set : (s : Bytes) (ts : List Bytes) → 0 < occurrences s (insert_set s ts)
unfolding insert_set
occurrences-insert_set s [] = let e = (bytes_eq_iff s s).1 refl in rw e (omega arith)
occurrences-insert_set s (t ∷ ts) = elim (Bool-cases (bytes_eq t s)) [
  | inl e ↦ rw (e, e) (omega arith)
  | inr e ↦ rw (e, e) (omega (arith, occurrences-insert_set s ts))
]

pub unique_loop-cases :
    (s : Bytes) (strings unique : List Bytes) (limit : ℕ) (r : List Bytes)
    → unique_loop (s ∷ strings) unique limit ≡ some r
    → unique_loop strings (insert_set s unique) limit ≡ some r
unfolding unique_loop
unique_loop-cases s strings unique limit r h =
    elim (Bool-cases (length (insert_set s unique) == limit)) [
      | inl e ↦ ground arith
      | inr e ↦ ground arith
    ]

count-unique_loop :
    (p : Bytes → Bool) (strings unique : List Bytes) (limit : ℕ) (r : List Bytes)
    → unique_loop strings unique limit ≡ some r
    → count p unique ≤ count p r
unfolding unique_loop
count-unique_loop p [] unique limit r h = ground arith
count-unique_loop p (s ∷ strings) unique limit r h =
    let later =
      count-unique_loop p strings (insert_set s unique) limit r
        (unique_loop-cases s strings unique limit r h) in
    omega (arith, later, count-insert_set p s unique)

-- The set holds every string of the column.
pub occurrences-unique_loop :
    (strings unique : List Bytes) (limit : ℕ) (r : List Bytes)
    → unique_loop strings unique limit ≡ some r
    → All (λ s. 0 < occurrences s r) strings
occurrences-unique_loop [] unique limit r h = tt
occurrences-unique_loop (s ∷ strings) unique limit r h =
    let run = unique_loop-cases s strings unique limit r h in
    let later = count-unique_loop (λ t. bytes_eq t s) strings (insert_set s unique) limit r run in
    (
      omega (arith, later, occurrences-insert_set s unique),
      occurrences-unique_loop strings (insert_set s unique) limit r run,
    )

-- Each entry holds an index of its string.
abbrev pub Points : List Bytes → List (Bytes × ℕ) → Type 0
Points mapping dictionary = All (λ e. get_elem? mapping e.1 ≡ some e.0) dictionary

fits_index : (w : Width) (i : ℕ) → i ≤ max_value w → i % (max_value w + 1) ≡ i
fits_index width_8 i h = omega arith
fits_index width_16 i h = omega arith
fits_index width_32 i h = omega arith

build_dictionary-Points :
    (w : Width) (pre ss : List Bytes) (dictionary : List (Bytes × ℕ))
    → length (pre ++ ss) ≤ max_value w
    → Points (pre ++ ss) dictionary
    → Points (pre ++ ss) (build_dictionary w ss (length pre) dictionary)
unfolding build_dictionary
build_dictionary-Points w pre [] dictionary h k = k
build_dictionary-Points w pre (s ∷ ss) dictionary h k =
    let i = length pre in
    let fits : i % (max_value w + 1) ≡ i =
      fits_index w i (omega (arith, h, length-append pre (s ∷ ss))) in
    let e = append_assoc pre (s ∷ []) ss in
    let next : length (pre ++ s ∷ []) ≡ i + 1 = length-append pre (s ∷ []) in
    let rest =
      build_dictionary-Points w (pre ++ s ∷ []) ss ((s, i % (max_value w + 1)) ∷ dictionary)
        (rw e h)
        (subst (λ m. Points m ((s, i % (max_value w + 1)) ∷ dictionary)) (sym e)
          (rw fits (get_elem?-append_length pre ss s), k)) in
    subst (λ m. Points m (build_dictionary w ss (i + 1) ((s, i % (max_value w + 1)) ∷ dictionary)))
      e (rw (sym next) rest)

count-build_dictionary :
    (p : Bytes → Bool) (w : Width) (ss : List Bytes) (i : ℕ) (dictionary : List (Bytes × ℕ))
    → count (λ (e : Bytes × ℕ). p e.0) (build_dictionary w ss i dictionary)
      ≡ count p ss + count (λ (e : Bytes × ℕ). p e.0) dictionary
unfolding build_dictionary
count-build_dictionary p w [] i dictionary = omega arith
count-build_dictionary p w (s ∷ ss) i dictionary =
    omega (arith, count-build_dictionary p w ss (i + 1) ((s, i % (max_value w + 1)) ∷ dictionary))

find-some :
    (mapping : List Bytes) (dictionary : List (Bytes × ℕ)) (s : Bytes) (k : ℕ)
    → Points mapping dictionary
    → find dictionary s ≡ some k
    → get_elem? mapping k ≡ some s
unfolding find
find-some mapping [] s k h e = cc
find-some mapping ((t, i) ∷ dictionary) s k h e = elim (Bool-cases (bytes_eq t s)) [
  | inl q ↦ ground (arith, (bytes_eq_iff t s).0 q)
  | inr q ↦ ground (arith, find-some mapping dictionary s k h.1)
]

find-none :
    (dictionary : List (Bytes × ℕ)) (s : Bytes)
    → find dictionary s ≡ none
    → count (λ (e : Bytes × ℕ). bytes_eq e.0 s) dictionary ≡ 0
unfolding find
find-none [] s e = refl
find-none ((t, i) ∷ dictionary) s e = ground (arith, find-none dictionary s)

-- Indices that the dictionary answers for strings that it has.
pub record Indices (mapping : List Bytes) (dictionary : List (Bytes × ℕ)) (strings : List Bytes)
    : Type 0 where
  pub indices : List ℕ
  pub run : encode_strings dictionary strings ≡ ok indices
  pub back : gather mapping indices ≡ some strings
  pub rows : length indices ≡ length strings

gather_cons :
    (mapping : List Bytes) (i : ℕ) (indices : List ℕ) (s : Bytes) (strings : List Bytes)
    → get_elem? mapping i ≡ some s
    → gather mapping indices ≡ some strings
    → gather mapping (i ∷ indices) ≡ some (s ∷ strings)
gather_cons mapping i indices s strings h k = ground arith

encode_strings_lem :
    (mapping : List Bytes) (dictionary : List (Bytes × ℕ)) (strings : List Bytes)
    → Points mapping dictionary
    → All (λ s. 0 < count (λ (e : Bytes × ℕ). bytes_eq e.0 s) dictionary) strings
    → Indices mapping dictionary strings
unfolding encode_strings
encode_strings_lem mapping dictionary [] h k = record {
  indices = [];
  run = refl;
  back = refl;
  rows = refl;
}
encode_strings_lem mapping dictionary (s ∷ strings) h k =
    let rest = encode_strings_lem mapping dictionary strings h k.1 in
    elim (Option-cases (find dictionary s)) [
      | inl e ↦ absurd (omega (arith, k.0, find-none dictionary s e))
      | inr (i, e) ↦ record {
        indices = i ∷ rest.indices;
        run = rw (e, rest.run) refl;
        back =
            gather_cons mapping i rest.indices s strings (find-some mapping dictionary s i h e)
              rest.back;
        rows = ap suc rest.rows;
      }
    ]

-- The indices of strings that all stand in a mapping, by the dictionary that is built from it.
pub dictionary-Indices :
    (w : Width) (mapping strings : List Bytes)
    → length mapping ≤ max_value w
    → All (λ s. 0 < occurrences s mapping) strings
    → Indices mapping (build_dictionary w mapping 0 []) strings
dictionary-Indices w mapping strings h k =
    encode_strings_lem mapping (build_dictionary w mapping 0 []) strings
      (build_dictionary-Points w [] mapping [] h tt)
      (All-imp _ _ strings
        (λ s m. omega (arith, m, count-build_dictionary (λ t. bytes_eq t s) w mapping 0 [])) k)
