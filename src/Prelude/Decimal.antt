-- ===== src/Prelude/Decimal.antt =====
-- What `format!("{}", n)` writes for a number: its digits in ASCII. Each round divides by ten, so
-- more fuel than the number is enough.
use Prim.Native.Nat.{ℕ, zero, suc, ◌+◌, ◌/◌, ◌%◌}
use mathlib.Core.List.{List, [], ◌∷◌, ◌++◌}
use locust_db.Prelude.Tests.{ltb, if◌then◌else◌}

digits : (fuel n : ℕ) → List ℕ
digits zero n = []
digits (suc fuel) n =
    let rest = digits fuel (n / 10) in
    if ltb n 10 then (b'0' + n) ∷ [] else rest ++ (b'0' + n % 10) ∷ []

unfoldable pub decimal : ℕ → List ℕ
unfolding digits
decimal n = digits (suc n) n
