-- ===== src/Stringpack/IndexedPackedStrings/Roundtrip.antt =====
-- What `IndexedPackedStrings` yields again, while offsets and lengths fit their fields.
use locust_db.Prelude.{
  ℕ, suc, ◌+◌, ◌*◌, ◌/◌, ◌%◌, ◌^◌, ◌<◌, ◌≡◌, refl, ap, subst, sym, ◌∙◌, some, List, [], ◌∷◌, ◌++◌,
  append_assoc, append-nil, arith, length, length-append,
}
use locust_db.Stringpack.Base.{Bytes}
use locust_db.Stringpack.PackedStrings.Roundtrip.{slice_middle}
use locust_db.Stringpack.IndexedPackedStrings.{
  IndexedPackedStrings, default, pack_word, read_word, push, push_all, read_all, iter, len,
}

abbrev pub concat : List Bytes → Bytes
concat [] = []
concat (s ∷ ss) = s ++ concat ss

-- The words of these strings, behind a backing store of this length.
abbrev pub layout : ℕ → List Bytes → List ℕ
layout offset [] = []
layout offset (s ∷ ss) = (offset * 2 ^ 24 + length s) ∷ layout (offset + length s) ss

-- Each length fits 24 bits, and the bytes together are addressed by 40.
abbrev pub Fits : ℕ → List Bytes → Type 0
Fits offset [] = Unit
Fits offset (s ∷ ss) = (length s < 2 ^ 24) × (offset < 2 ^ 40) × Fits (offset + length s) ss

length-layout : (offset : ℕ) (ss : List Bytes) → length (layout offset ss) ≡ length ss
length-layout offset [] = refl
length-layout offset (s ∷ ss) = ap suc (length-layout (offset + length s) ss)

pack_word_lem :
    (offset len : ℕ) → offset < 2 ^ 40 → len < 2 ^ 24 → pack_word offset len ≡ offset * 2 ^ 24 + len
unfolding pack_word
pack_word_lem offset len h k = omega arith

pub read_word_lem :
    (pre s rest : Bytes)
    → length s < 2 ^ 24
    → read_word (pre ++ s ++ rest) (length pre * 2 ^ 24 + length s) ≡ some s
unfolding read_word
read_word_lem pre s rest h =
    slice_middle pre s rest ((length pre * 2 ^ 24 + length s) / 2 ^ 24)
      ((length pre * 2 ^ 24 + length s) / 2 ^ 24 + (length pre * 2 ^ 24 + length s) % 2 ^ 24)
      (omega arith) (omega arith)

push_lem :
    (ps : IndexedPackedStrings) (s : Bytes)
    → length ps.backing_store < 2 ^ 40
    → length s < 2 ^ 24
    → push ps s ≡ record {
      words = ps.words ++ (length ps.backing_store * 2 ^ 24 + length s) ∷ [];
      backing_store = ps.backing_store ++ s;
    }
unfolding push
push_lem ps s h k = rw (pack_word_lem (length ps.backing_store) (length s) h k)

pub push_all_lem :
    (words : List ℕ) (store : Bytes) (ss : List Bytes)
    → Fits (length store) ss
    → push_all (record { words = words; backing_store = store }) ss
      ≡ record { words = words ++ layout (length store) ss; backing_store = store ++ concat ss }
unfolding push_all
push_all_lem words store [] h = ground (arith, append-nil words, append-nil store)
push_all_lem words store (s ∷ ss) h =
    ap (λ ps. push_all ps ss) (push_lem (record { words = words; backing_store = store }) s h.1 h.0)
    ∙ push_all_lem (words ++ (length store * 2 ^ 24 + length s) ∷ []) (store ++ s) ss
        (rw (length-append store s) h.2)
    ∙ ground (
      arith,
      length-append store s,
      append_assoc words ((length store * 2 ^ 24 + length s) ∷ [])
          (layout (length store + length s) ss),
      append_assoc store s (concat ss),
    )

pub read_all_cons :
    (store : Bytes) (w : ℕ) (ws : List ℕ) (s : Bytes) (ss : List Bytes)
    → read_word store w ≡ some s
    → read_all store ws ≡ some ss
    → read_all store (w ∷ ws) ≡ some (s ∷ ss)
unfolding read_all
read_all_cons store w ws s ss h k = ground arith

pub read_all_lem :
    (pre : Bytes) (ss : List Bytes)
    → Fits (length pre) ss
    → read_all (pre ++ concat ss) (layout (length pre) ss) ≡ some ss
read_all_lem pre [] h = unfold read_all in refl
read_all_lem pre (s ∷ ss) h =
    read_all_cons _ _ _ s ss
      (ap (λ b. read_word b (length pre * 2 ^ 24 + length s)) (sym (append_assoc pre s (concat ss)))
        ∙ read_word_lem pre s (concat ss) h.0)
      (subst (λ n. read_all (pre ++ (s ++ concat ss)) (layout n ss) ≡ some ss) (length-append pre s)
        (subst (λ b. read_all b (layout (length (pre ++ s)) ss) ≡ some ss)
          (append_assoc pre s (concat ss))
          (read_all_lem (pre ++ s) ss (rw (length-append pre s) h.2))))

-- Strings that are pushed one after the other are yielded again, in order, and `len` counts them,
-- if every length is below 2^24 and every offset below 2^40.
pub iter-push_all :
    (ss : List Bytes)
    → Fits 0 ss
    → (iter (push_all default ss) ≡ some ss) × (len (push_all default ss) ≡ length ss)
unfolding iter len
iter-push_all ss h = rw (push_all_lem [] [] ss h) (read_all_lem [] ss h, length-layout 0 ss)
