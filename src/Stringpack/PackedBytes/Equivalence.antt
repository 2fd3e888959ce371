-- ===== src/Stringpack/PackedBytes/Equivalence.antt =====
-- src/stringpack.rs: the byte packers `PackedStrings` and `PackedBytes`, against each other.
use locust_db.Prelude.{
  ℕ, ◌+◌, ◌-◌, ◌<◌, ◌≡◌, refl, ap, ◌∙◌, Acc, lt_wf, dec_lt, dite, List, [], ◌∷◌, ◌++◌, length, drop,
  arith,
}
use locust_db.Stringpack.Base
use locust_db.Stringpack.Base.{Bytes, PackedIterator}
use locust_db.Stringpack.PackedStrings
use locust_db.Stringpack.PackedBytes.{push_len, push_all, from_iterator, read_len, next}

dite_cong :
    {P : Type 0} (d : Dec P) (f f' : P → Bytes) (g g' : ¬ P → Bytes)
    → ((h : P) → f h ≡ f' h)
    → ((h : ¬ P) → g h ≡ g' h)
    → dite d f g ≡ dite d f' g'
dite_cong (yes h) f f' g g' e e' = e h
dite_cong (no h) f f' g g' e e' = e' h

push_len-eq :
    (dst : Bytes) (len : ℕ) (acc : Acc ◌<◌ len) → push_len dst len acc ≡ Base.push_len dst len acc
unfolding push_len Base.push_len
push_len-eq dst len (Acc.intro _ below) =
    dite_cong (dec_lt 254 len) _ _ _ _
      (λ h. push_len-eq (dst ++ 255 ∷ []) (len - 255) (below (len - 255) _)) (λ h. refl)

push_all-eq :
    (sp : PackedStrings.PackedStrings) (bs : List Bytes)
    → push_all sp.bytes bs ≡ (PackedStrings.push_all sp bs).bytes
unfolding push_all PackedStrings.push_all PackedStrings.push
push_all-eq sp [] = refl
push_all-eq sp (b ∷ bs) =
    ap (λ dst. push_all (dst ++ b) bs) (push_len-eq sp.bytes (length b) (lt_wf.apply (length b)))
    ∙ push_all-eq (PackedStrings.push sp b) bs

read_len-eq :
    (rest : Bytes) (len index : ℕ) → read_len rest len index ≡ Base.read_len rest len index
unfolding read_len Base.read_len
read_len-eq [] len index = refl
read_len-eq (b ∷ rest) len index = ground (arith, read_len-eq rest (len + 255) (index + 1))

-- Both packers write the same bytes, and on any data, from any index, both iterators give the same
-- string, end or panic and stop at the same index.
pub packers_agree :
    (strings : List Bytes) (it : PackedIterator)
    → ((from_iterator strings).bytes ≡ (PackedStrings.from_iterator strings).bytes)
      × (next it ≡ PackedStrings.next it)
unfolding from_iterator PackedStrings.from_iterator next PackedStrings.next
packers_agree strings it = (
  push_all-eq (record { bytes = [] }) strings,
  ground (arith, read_len-eq (drop it.curr_index it.bytes) 0 it.curr_index),
)
