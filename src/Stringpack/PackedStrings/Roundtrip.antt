-- ===== src/Stringpack/PackedStrings/Roundtrip.antt =====
-- What `PackedStrings` writes, `StringPackerIterator` reads.
use native.Mathlib.Bridge.{le_prop}
use locust_db.Prelude.{
  ℕ, zero, suc, ◌+◌, ◌-◌, ◌*◌, ◌/◌, ◌%◌, ◌<◌, ◌≡◌, refl, ap, ◌∙◌, sym, some, none, List, [], ◌∷◌,
  ◌++◌, append_assoc, append-nil, Acc, lt_wf, dec_lt, dif_pos, dif_neg, arith, length, drop,
  replicate, length-append, length-replicate, drop-append_self, take-append_self,
}
use locust_db.Stringpack.Base.{Bytes, PackedIterator, push_len, read_len, slice}
use locust_db.Stringpack.PackedStrings.{PackedStrings, push, push_all, from_iterator, next}

-- The bytes before a string of this length.
abbrev pub prefix : ℕ → Bytes
prefix len = replicate (len / 255) 255 ++ (len % 255) ∷ []

abbrev pub encode : Bytes → Bytes
encode s = prefix (length s) ++ s

abbrev pub encode_all : List Bytes → Bytes
encode_all [] = []
encode_all (s ∷ ss) = encode s ++ encode_all ss

prefix_short : (len : ℕ) → len < 255 → prefix len ≡ len % 256 ∷ []
prefix_short len h =
    let q : len / 255 ≡ 0 = omega arith in
    let r : len % 255 ≡ len % 256 = omega arith in rw (q, r) refl

prefix_long : (len : ℕ) → 254 < len → prefix len ≡ 255 ∷ prefix (len - 255)
prefix_long len h =
    let q : len / 255 ≡ suc ((len - 255) / 255) = omega arith in
    let r : len % 255 ≡ (len - 255) % 255 = omega arith in rw (q, r) refl

pub push_len_lem :
    (dst : Bytes) (len : ℕ) (w : Acc ◌<◌ len) → push_len dst len w ≡ dst ++ prefix len
unfolding push_len
push_len_lem dst len (Acc.intro _ below) = elim (dec_lt 254 len) [
  | yes h ↦
      dif_pos (dec_lt 254 len) le_prop h _ _
      ∙ push_len_lem (dst ++ 255 ∷ []) (len - 255) (below (len - 255) (omega arith))
      ∙ append_assoc dst (255 ∷ []) (prefix (len - 255))
      ∙ ap (◌++◌ dst) (sym (prefix_long len h))
  | no h ↦ dif_neg (dec_lt 254 len) h _ _ ∙ ap (◌++◌ dst) (sym (prefix_short len (omega arith)))
]

pub push_lem : (sp : PackedStrings) (s : Bytes) → (push sp s).bytes ≡ sp.bytes ++ encode s
unfolding push
push_lem sp s =
    ap (λ b. b ++ s) (push_len_lem sp.bytes (length s) (lt_wf.apply (length s)))
    ∙ append_assoc sp.bytes (prefix (length s)) s

pub push_all_lem :
    (sp : PackedStrings) (ss : List Bytes) → (push_all sp ss).bytes ≡ sp.bytes ++ encode_all ss
unfolding push_all
push_all_lem sp [] = sym (append-nil sp.bytes)
push_all_lem sp (s ∷ ss) =
    push_all_lem (push sp s) ss
    ∙ ap (λ b. b ++ encode_all ss) (push_lem sp s)
    ∙ append_assoc sp.bytes (encode s) (encode_all ss)

read_len_run :
    (q b : ℕ) (tail : Bytes) (len i : ℕ)
    → b < 255
    → read_len (replicate q 255 ++ b ∷ tail) len i ≡ some (len + 255 * q + b, i + q + 1)
unfolding read_len
read_len_run zero b tail len i h = ground arith
read_len_run (suc q) b tail len i h = read_len_run q b tail (len + 255) (i + 1) h ∙ ground arith

read_len-prefix :
    (n : ℕ) (tail : Bytes) (i : ℕ)
    → read_len (prefix n ++ tail) 0 i ≡ some (n, i + length (prefix n))
read_len-prefix n tail i =
    ap (λ l. read_len l 0 i) (append_assoc (replicate (n / 255) 255) (n % 255 ∷ []) tail)
    ∙ read_len_run (n / 255) (n % 255) tail 0 i (omega arith)
    ∙ ground (
      arith,
      length-append (replicate (n / 255) 255) (n % 255 ∷ []),
      length-replicate {A = ℕ} (n / 255) 255,
    )

pub slice_middle :
    (pre s rest : Bytes) (from to : ℕ)
    → from ≡ length pre
    → to ≡ from + length s
    → slice (pre ++ s ++ rest) from to ≡ some s
unfolding slice
slice_middle pre s rest from to e f = ground (
  arith,
  append_assoc pre s rest,
  drop-append_self pre (s ++ rest),
  take-append_self s rest,
  length-append (pre ++ s) rest,
  length-append pre s,
)

next_step :
    (it : PackedIterator) (len index : ℕ) (result : Bytes)
    → it.curr_index < length it.bytes
    → read_len (drop it.curr_index it.bytes) 0 it.curr_index ≡ some (len, index)
    → slice it.bytes index (index + len) ≡ some result
    → next it ≡ some (some result, record it { curr_index = index + len })
unfolding next
next_step it len index result h r s = ground arith

length-append-encode :
    (pre s : Bytes) → length (pre ++ encode s) ≡ length pre + length (prefix (length s)) + length s
length-append-encode pre s =
    omega (arith, length-append pre (encode s), length-append (prefix (length s)) s)

drop-append-encode :
    (pre s rest : Bytes)
    → drop (length pre) (pre ++ encode s ++ rest) ≡ prefix (length s) ++ (s ++ rest)
drop-append-encode pre s rest =
    ap (drop (length pre)) (append_assoc pre (encode s) rest)
    ∙ drop-append_self pre (encode s ++ rest)
    ∙ append_assoc (prefix (length s)) s rest

slice_string :
    (pre s rest : Bytes)
    → slice
        (pre ++ encode s ++ rest)
        (length pre + length (prefix (length s)))
        (length pre + length (prefix (length s)) + length s)
      ≡ some s
slice_string pre s rest =
    ap
      (λ b.
        slice (b ++ rest) (length pre + length (prefix (length s)))
          (length pre + length (prefix (length s)) + length s))
      (sym (append_assoc pre (prefix (length s)) s))
    ∙ slice_middle (pre ++ prefix (length s)) s rest _ _
        (sym (length-append pre (prefix (length s)))) refl

-- One step of the iterator at the start of an encoded string.
pub next_lem :
    (pre s rest : Bytes)
    → next (record { bytes = pre ++ encode s ++ rest; curr_index = length pre })
      ≡ some (
        some s,
        record { bytes = pre ++ encode s ++ rest; curr_index = length (pre ++ encode s) },
      )
next_lem pre s rest =
    next_step _ (length s) (length pre + length (prefix (length s))) s
      (omega (
        arith,
        length-append (pre ++ encode s) rest,
        length-append-encode pre s,
        length-append (replicate {A = ℕ} (length s / 255) 255) (length s % 255 ∷ []),
      ))
      (ap (λ l. read_len l 0 (length pre)) (drop-append-encode pre s rest)
        ∙ read_len-prefix (length s) (s ++ rest) (length pre))
      (slice_string pre s rest)
    ∙ ap (λ i. some (some s, record { bytes = pre ++ encode s ++ rest; curr_index = i }))
        (sym (length-append-encode pre s))

-- The step at the end.
pub next_end :
    (bytes : Bytes)
    → next (record { bytes = bytes; curr_index = length bytes })
      ≡ some (none, record { bytes = bytes; curr_index = length bytes })
unfolding next
next_end bytes = ground arith

pub from_iterator_lem : (ss : List Bytes) → (from_iterator ss).bytes ≡ encode_all ss
unfolding from_iterator
from_iterator_lem ss = push_all_lem (record { bytes = [] }) ss
