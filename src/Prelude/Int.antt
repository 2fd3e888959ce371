-- ===== src/Prelude/Int.antt =====
-- i64 and i128 values as integers over the native numbers. `negsuc n` is -(n + 1).
use Prim.Native.Nat.{ℕ, suc, ◌+◌, ◌-◌, ◌%◌, ◌^◌, ◌≤◌, ◌<◌}
use mathlib.Core.Path.{◌≡◌}
use mathlib.Core.Logic.{◌↔◌, ◌⊎◌}
use mathlib.Core.Bool.{Bool, true, false, not, ◌&&◌}
use native.Mathlib.Omega.{arith}
use locust_db.Prelude.Tests.{ltb, leb, ◌==◌, if◌then◌else◌}
use locust_db.Prelude.Order.{Ord}

pub data ℤ : Type 0 where
  pos : ℕ → ℤ
  negsuc : ℕ → ℤ

abbrev pub pos_part : ℤ → ℕ
pos_part (pos n) = n
pos_part (negsuc n) = 0

abbrev pub neg_part : ℤ → ℕ
neg_part (pos n) = 0
neg_part (negsuc n) = suc n

-- a - b, as an integer.
abbrev pub sub_ℕ : ℕ → ℕ → ℤ
sub_ℕ a b = if leb b a then pos (a - b) else negsuc (b - a - 1)

infixl 65 ◌+ℤ◌ ◌-ℤ◌
unfoldable pub ◌+ℤ◌ : ℤ → ℤ → ℤ
a +ℤ b = sub_ℕ (pos_part a + pos_part b) (neg_part a + neg_part b)

unfoldable pub ◌-ℤ◌ : ℤ → ℤ → ℤ
a -ℤ b = sub_ℕ (pos_part a + neg_part b) (neg_part a + pos_part b)

infix 50 ◌≤ℤ◌ ◌<ℤ◌
abbrev pub ◌≤ℤ◌ : ℤ → ℤ → Type 0
a ≤ℤ b = pos_part a + neg_part b ≤ pos_part b + neg_part a

abbrev pub ◌<ℤ◌ : ℤ → ℤ → Type 0
a <ℤ b = pos_part a + neg_part b < pos_part b + neg_part a

abbrev pub ltb_ℤ : ℤ → ℤ → Bool
ltb_ℤ a b = ltb (pos_part a + neg_part b) (pos_part b + neg_part a)

abbrev pub leb_ℤ : ℤ → ℤ → Bool
leb_ℤ a b = leb (pos_part a + neg_part b) (pos_part b + neg_part a)

abbrev pub eq_ℤ : ℤ → ℤ → Bool
eq_ℤ a b = (pos_part a + neg_part b) == (pos_part b + neg_part a)

pub +ℤ_parts :
    (a b : ℤ)
    → pos_part (a +ℤ b) + neg_part a + neg_part b ≡ neg_part (a +ℤ b) + pos_part a + pos_part b
unfolding ◌+ℤ◌
+ℤ_parts a b = ground arith

pub -ℤ_parts :
    (a b : ℤ)
    → pos_part (a -ℤ b) + neg_part a + pos_part b ≡ neg_part (a -ℤ b) + pos_part a + neg_part b
unfolding ◌-ℤ◌
-ℤ_parts a b = ground arith

pub eq_of_parts : (a b : ℤ) → pos_part a + neg_part b ≡ pos_part b + neg_part a → a ≡ b
eq_of_parts a b h = ground arith

pub eq_ℤ_iff : (a b : ℤ) → (eq_ℤ a b ≡ true) ↔ (a ≡ b)
eq_ℤ_iff a b = (λ h. eq_of_parts a b (ground arith), λ h. ground arith)

pub ltb_ℤ_connected : (a b : ℤ) → ltb_ℤ a b ≡ false → ltb_ℤ b a ≡ false → a ≡ b
ltb_ℤ_connected a b h k = eq_of_parts a b (ground arith)

pub leb_ℤ-eq : (a b : ℤ) → leb_ℤ a b ≡ not (ltb_ℤ b a)
leb_ℤ-eq a b = ground arith

pub ltb_ℤ_irrefl : (a : ℤ) → ltb_ℤ a a ≡ false
ltb_ℤ_irrefl a = ground arith

pub ltb_ℤ_trans : (a b c : ℤ) → ltb_ℤ a b ≡ true → ltb_ℤ b c ≡ true → ltb_ℤ a c ≡ true
ltb_ℤ_trans a b c h k = ground arith

pub ruleset int_laws = (arith, +ℤ_parts, -ℤ_parts, eq_of_parts)

-- The values of i64.
pub record IsI64 (a : ℤ) : Type 0 where
  pub below : pos_part a < 2 ^ 63
  pub above : neg_part a ≤ 2 ^ 63

abbrev pub is_i64 : ℤ → Bool
is_i64 a = ltb (pos_part a) (2 ^ 63) && leb (neg_part a) (2 ^ 63)

-- The i64 with the same low 64 bits.
unfoldable pub wrap_i64 : ℤ → ℤ
wrap_i64 a =
    let bits = (pos_part a + 2 ^ 64 - neg_part a % 2 ^ 64) % 2 ^ 64 in
    if ltb bits (2 ^ 63) then pos bits else sub_ℕ bits (2 ^ 64)

pub wrap_i64_self : (a : ℤ) → IsI64 a → wrap_i64 a ≡ a
unfolding wrap_i64
wrap_i64_self a h = eq_of_parts (wrap_i64 a) a (ground (arith, h.below, h.above))

pub wrap_i64-IsI64 : (a : ℤ) → IsI64 (wrap_i64 a)
unfolding wrap_i64
wrap_i64-IsI64 a = record { below = ground arith; above = ground arith }

-- Between -2^64 and 2^64, wrapping moves by 2^64 at most once.
wrap_i64_near :
    (a : ℤ)
    → pos_part a < 2 ^ 64
    → neg_part a ≤ 2 ^ 64
    → (wrap_i64 a ≡ a)
      ⊎ ((pos_part (wrap_i64 a) + neg_part a + 2 ^ 64 ≡ pos_part a + neg_part (wrap_i64 a))
          ⊎ (pos_part (wrap_i64 a) + neg_part a ≡ pos_part a + neg_part (wrap_i64 a) + 2 ^ 64))
unfolding wrap_i64
wrap_i64_near a h k = ground arith

parts_sub :
    (a b : ℤ)
    → (pos_part (a -ℤ b) ≤ pos_part a + neg_part b) × (neg_part (a -ℤ b) ≤ neg_part a + pos_part b)
unfolding ◌-ℤ◌
parts_sub a b = ground arith

parts_add :
    (a b : ℤ)
    → (pos_part (a +ℤ b) ≤ pos_part a + pos_part b) × (neg_part (a +ℤ b) ≤ neg_part a + neg_part b)
unfolding ◌+ℤ◌
parts_add a b = ground arith

-- Adding back what was subtracted, with wrap-around in both.
pub wrap_i64-sub_add : (c p : ℤ) → IsI64 c → IsI64 p → wrap_i64 (wrap_i64 (c -ℤ p) +ℤ p) ≡ c
wrap_i64-sub_add c p h k =
    let d = wrap_i64 (c -ℤ p) in
    let r = wrap_i64 (d +ℤ p) in
    let hd = wrap_i64-IsI64 (c -ℤ p) in
    let hr = wrap_i64-IsI64 (d +ℤ p) in
    let sub = -ℤ_parts c p in
    let sum = +ℤ_parts d p in
    let small = parts_sub c p in
    let small_sum = parts_add d p in
    eq_of_parts r c (
      ground (
        arith,
        hd.below,
        hd.above,
        hr.below,
        hr.above,
        h.below,
        h.above,
        k.below,
        k.above,
        wrap_i64_near (c -ℤ p) (omega arith) (omega arith),
        wrap_i64_near (d +ℤ p) (omega arith) (omega arith),
      ))

-- i64
instance abbrev pub int_ord : Ord ℤ
int_ord = record {
  lt = ltb_ℤ;
  le = leb_ℤ;
  eq = eq_ℤ;
  eq_iff = eq_ℤ_iff;
  le-eq = leb_ℤ-eq;
  lt_irrefl = ltb_ℤ_irrefl;
  lt_trans = ltb_ℤ_trans;
  lt_connected = ltb_ℤ_connected;
}
