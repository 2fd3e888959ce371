-- ===== src/MemStore/Integers/Fits.antt =====
-- The width and the offset that are chosen, against the values of the column.
use locust_db.Prelude.{
  ℕ, ◌+◌, ◌-◌, ◌^◌, ◌≤◌, ◌<◌, ◌≡◌, refl, ap, ap₂, subst, sym, ◌∙◌, Bool, true, false, ◌&&◌, Option,
  some, some_inj, List, [], ◌∷◌, map, leb, All, if◌then◌else◌, arith,
}
use locust_db.Prelude.Int.{
  ℤ, pos, pos_part, neg_part, ◌+ℤ◌, ◌-ℤ◌, ◌≤ℤ◌, leb_ℤ, wrap_i64, IsI64, eq_of_parts, -ℤ_parts,
  wrap_i64_self, wrap_i64-sub_add,
}
use locust_db.Errors.{ok}
use locust_db.MemStore.Column.Decoding.{add_scalar}
use locust_db.MemStore.Integers.{Width, max_value, interval, choose_width, encode}

-- A value of a column with these bounds.
pub record Within (min max v : ℤ) : Type 0 where
  pub i64 : IsI64 v
  pub at_least : min ≤ℤ v
  pub at_most : v ≤ℤ max

-- How a value is stored, and that it is restored.
pub record Stores (k : ℕ) (offset v : ℤ) : Type 0 where
  pub n : ℕ
  pub stored : wrap_i64 (v -ℤ offset) ≡ pos n
  pub fits : n ≤ k
  pub restored : wrap_i64 (pos n +ℤ offset) ≡ v
  pub plain : offset ≡ pos 0 → pos n ≡ v

interval_lem :
    (min max : ℤ)
    → IsI64 min
    → IsI64 max
    → min ≤ℤ max
    → pos_part max + neg_part min ≡ interval min max + pos_part min + neg_part max
unfolding interval ◌-ℤ◌ wrap_i64
interval_lem min max h k o = ground (arith, h.below, h.above, k.below, k.above)

nonnegative : (v : ℤ) → pos 0 ≤ℤ v → v ≡ pos (pos_part v)
nonnegative v h = eq_of_parts v (pos (pos_part v)) (ground arith)

Stores-plain :
    (k : ℕ) (min max v : ℤ)
    → Within min max v
    → (leb_ℤ (pos 0) min && leb_ℤ max (pos k)) ≡ true
    → Stores k (pos 0) v
unfolding ◌-ℤ◌ ◌+ℤ◌
Stores-plain k min max v h t =
    let same : v -ℤ pos 0 ≡ v = eq_of_parts (v -ℤ pos 0) v (ground arith) in
    let back : v +ℤ pos 0 ≡ v = eq_of_parts (v +ℤ pos 0) v (ground arith) in
    let natural : v ≡ pos (pos_part v) = nonnegative v (ground (arith, h.at_least)) in
    record {
      n = pos_part v;
      stored = ap wrap_i64 same ∙ wrap_i64_self v h.i64 ∙ natural;
      fits = ground (arith, h.at_least, h.at_most);
      restored =
          ap (λ a. wrap_i64 (a +ℤ pos 0)) (sym natural) ∙ ap wrap_i64 back ∙ wrap_i64_self v h.i64;
      plain = λ _. sym natural;
    }

Stores-offset :
    (k : ℕ) (min max v : ℤ)
    → k < 2 ^ 63
    → IsI64 min
    → IsI64 max
    → Within min max v
    → leb (interval min max) k ≡ true
    → Stores k min v
Stores-offset k min max v small hmin hmax h t =
    let parts = -ℤ_parts v min in
    let range = interval_lem min max hmin hmax (ground (arith, h.at_least, h.at_most)) in
    let natural = nonnegative (v -ℤ min) (ground (arith, h.at_least)) in
    let bound : pos_part (v -ℤ min) ≤ k = ground (arith, h.at_least, h.at_most) in
    let exact =
      wrap_i64_self (v -ℤ min)
        (record { below = omega arith; above = ground (arith, h.at_least) }) in
    let stored = exact ∙ natural in
    record {
      n = pos_part (v -ℤ min);
      stored = stored;
      fits = bound;
      restored = ap (λ a. wrap_i64 (a +ℤ min)) (sym stored) ∙ wrap_i64-sub_add v min h.i64 hmin;
      plain = λ e.
          sym (exact ∙ natural)
          ∙ exact
          ∙ eq_of_parts (v -ℤ min) v (ground (arith, ap pos_part e, ap neg_part e));
    }

-- One test of a chain.
chosen_if {ℓ κ} :
    {A : Type ℓ} (P : A → Type κ) (test : Bool) (x y : A) (rest : Option A)
    → (test ≡ true → P x)
    → (rest ≡ some y → P y)
    → (if test then some x else rest) ≡ some y
    → P y
chosen_if P true x y rest f g h = subst P (some_inj h) (f refl)
chosen_if P false x y rest f g h = g h

pub choose_width-Stores :
    (min max v : ℤ) (chosen : Width × ℤ)
    → IsI64 min
    → IsI64 max
    → Within min max v
    → choose_width min max ≡ some chosen
    → Stores (max_value chosen.0) chosen.1 v
unfolding choose_width
choose_width-Stores min max v chosen hmin hmax h =
    let P : Width × ℤ → Type 0 = λ c. Stores (max_value c.0) c.1 v in
    chosen_if P _ _ chosen _ (Stores-plain (2 ^ 8 - 1) min max v h) (
      chosen_if P _ _ chosen _ (Stores-offset (2 ^ 8 - 1) min max v (omega arith) hmin hmax h) (
        chosen_if P _ _ chosen _ (Stores-plain (2 ^ 16 - 1) min max v h) (
          chosen_if P _ _ chosen _ (Stores-offset (2 ^ 16 - 1) min max v (omega arith) hmin hmax h)
            (chosen_if P _ _ chosen _ (Stores-plain (2 ^ 32 - 1) min max v h) (
              chosen_if P _ _ chosen _
                (Stores-offset (2 ^ 32 - 1) min max v (omega arith) hmin hmax h) (λ e. cc))))))

-- Encoding a column at the chosen width does not fail, and adding the offset back restores it; at
-- offset 0 the stored values are the column.
pub encode_lem :
    (w : Width) (offset : ℤ) (values : List ℤ)
    → All (Stores (max_value w) offset) values
    → (encoded : List ℕ) × (encode w values offset ≡ ok encoded)
      × (add_scalar (map pos encoded) offset ≡ values)
      × (offset ≡ pos 0 → map pos encoded ≡ values)
unfolding encode add_scalar
encode_lem w offset [] h = ([], refl, refl, λ e. refl)
encode_lem w offset (v ∷ values) (s, h) =
    let (encoded, run, back, plain) = encode_lem w offset values h in
    let fits : leb s.n (max_value w) ≡ true = ground (arith, s.fits) in
    (
      s.n ∷ encoded,
      rw (s.stored, fits, run, encode) refl,
      ap₂ ◌∷◌ s.restored back,
      λ e. ap₂ ◌∷◌ (s.plain e) (plain e),
    )
