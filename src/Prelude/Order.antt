-- ===== src/Prelude/Order.antt =====
-- What `Ord + PartialEq` gives the generic code: the three tests, and that they are one total order.
use mathlib.Core.Path.{◌≡◌}
use mathlib.Core.Logic.{◌↔◌}
use mathlib.Core.Bool.{Bool, true, false, not}
use Prim.Native.Nat.{ℕ, zero, suc, ◌<◌}
use mathlib.Core.WellFounded.{Acc, WellFounded}
use native.Mathlib.Omega.{arith}
use locust_db.Prelude.Tests.{ltb, leb, ◌==◌, ==_iff, leb-eq, ltb_irrefl, ltb_trans, ltb_connected}

pub record Ord {ℓ} (T : Type ℓ) : Type ℓ where
  pub lt : T → T → Bool
  pub le : T → T → Bool
  pub eq : T → T → Bool
  pub eq_iff : (a b : T) → (eq a b ≡ true) ↔ (a ≡ b)
  pub le-eq : (a b : T) → le a b ≡ not (lt b a)
  pub lt_irrefl : (a : T) → lt a a ≡ false
  pub lt_trans : (a b c : T) → lt a b ≡ true → lt b c ≡ true → lt a c ≡ true
  pub lt_connected : (a b : T) → lt a b ≡ false → lt b a ≡ false → a ≡ b

-- u8, u16, u32, u64, usize
instance abbrev pub nat_ord : Ord ℕ
nat_ord = record {
  lt = ltb;
  le = leb;
  eq = ◌==◌;
  eq_iff = ==_iff;
  le-eq = leb-eq;
  lt_irrefl = ltb_irrefl;
  lt_trans = ltb_trans;
  lt_connected = ltb_connected;
}

acc_below : (k n : ℕ) → n < k → Acc ◌<◌ n
acc_below zero n h = elim h [ ]
acc_below (suc k) n h = Acc.intro n (λ m hm. acc_below k m (omega arith))

-- `<` on the native numbers is well founded.
unfoldable pub lt_wf : WellFounded ◌<◌
unfolding acc_below
lt_wf = record { apply = λ n. acc_below (suc n) n (omega arith) }
