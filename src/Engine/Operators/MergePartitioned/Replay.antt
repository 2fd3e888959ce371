-- ===== src/Engine/Operators/MergePartitioned/Replay.antt =====
-- The ops of `merge_partitioned`, replayed by `merge_keep` on the same columns.
use locust_db.Prelude.{
  ℕ, zero, suc, ◌+◌, ◌-◌, ◌%◌, ◌^◌, ◌≤◌, ◌≡◌, refl, ap, sym, ◌∙◌, Bool, true, false, inl, inr,
  Bool-cases, Option, some, List, [], ◌∷◌, ◌++◌, append_assoc, append-nil, ◌==◌, length,
  if◌then◌else◌, arith,
}
use native.Mathlib.Nat.{mod-le}
use locust_db.Engine.Operators.Comparator.{Comparator}
use locust_db.Engine.Operators.Partition.{Premerge}
use locust_db.Engine.Operators.Partition.Groups.{lefts, rights}
use locust_db.Engine.Operators.MergeKeep.{keep_loop, merge_keep}
use locust_db.Engine.Operators.MergePartitioned.{
  Merging, left_next, push_left, push_right, group_loop, groups_loop, merge_partitioned,
}

module _ {ℓ} {T : Type ℓ} (C : Comparator T) (left right : List T) where
  -- `merge_keep` has come to the same place by the ops so far.
  Replays : Merging T → Type ℓ
  Replays s =
      (later : List ℕ)
      → keep_loop (s.take_left ++ later) left right []
        ≡ keep_loop later s.left_rest s.right_rest s.result

  -- What a state has left of both columns, against the state before it.
  record Within (a b : ℕ) (s s' : Merging T) : Type 0 where
    on_left : length s.left_rest ≤ length s'.left_rest + a
    on_right : length s.right_rest ≤ length s'.right_rest + b

  push_left-Replays :
      (s : Merging T) (x : T) (l : List T)
      → s.left_rest ≡ x ∷ l
      → Replays s
      → Replays (push_left C s x l)
  unfolding Replays keep_loop
  push_left-Replays s x l e h later =
      ap (λ ops. keep_loop ops left right []) (append_assoc s.take_left (1 ∷ []) later)
      ∙ h (1 ∷ later)
      ∙ rw e refl

  push_right-Replays :
      (s : Merging T) (y : T) (r : List T)
      → s.right_rest ≡ y ∷ r
      → Replays s
      → Replays (push_right C s y r)
  unfolding Replays keep_loop
  push_right-Replays s y r e h later =
      ap (λ ops. keep_loop ops left right []) (append_assoc s.take_left (0 ∷ []) later)
      ∙ h (0 ∷ later)
      ∙ rw e refl

  -- The loop returned, still replayed, and took no more of the columns than the group has.
  record Outcome (a b : ℕ) (s : Merging T) (returned : Option (Bool × Merging T)) : Type ℓ where
    broke : Bool
    after : Merging T
    returns : returned ≡ some (broke, after)
    replays : Replays after
    within : Within a b s after

  step :
      (a b a' b' : ℕ) (s s' : Merging T) (rest : Option (Bool × Merging T)) (stop : Bool)
      → ((t : Merging T) → Within a' b' s' t → Within a b s t)
      → Replays s'
      → Outcome a' b' s' rest
      → Outcome a b s (if stop then some (true, s') else rest)
  step a b a' b' s s' rest true f h o = record {
    broke = true;
    after = s';
    returns = refl;
    replays = h;
    within = f s' (record { on_left = omega arith; on_right = omega arith });
  }
  step a b a' b' s s' rest false f h o = record {
    broke = o.broke;
    after = o.after;
    returns = o.returns;
    replays = o.replays;
    within = f o.after o.within;
  }

  step_left :
      (a b : ℕ) (s : Merging T) (x : T) (l : List T) (rest : Option (Bool × Merging T))
      (stop : Bool)
      → s.left_rest ≡ x ∷ l
      → Replays s
      → (Replays (push_left C s x l) → Outcome (suc a - 1) b (push_left C s x l) rest)
      → Outcome (suc a) b s (if stop then some (true, push_left C s x l) else rest)
  step_left a b s x l rest stop e h o =
      let h' = push_left-Replays s x l e h in
      let size : length s.left_rest ≡ suc (length l) = ap length e in
      step (suc a) b (suc a - 1) b s (push_left C s x l) rest stop
        (λ t w. record { on_left = omega (arith, w.on_left, size); on_right = w.on_right }) h'
        (o h')

  step_right :
      (a b : ℕ) (s : Merging T) (y : T) (r : List T) (rest : Option (Bool × Merging T))
      (stop : Bool)
      → s.right_rest ≡ y ∷ r
      → Replays s
      → (Replays (push_right C s y r) → Outcome a (suc b - 1) (push_right C s y r) rest)
      → Outcome a (suc b) s (if stop then some (true, push_right C s y r) else rest)
  step_right a b s y r rest stop e h o =
      let h' = push_right-Replays s y r e h in
      let size : length s.right_rest ≡ suc (length r) = ap length e in
      step a (suc b) a (suc b - 1) s (push_right C s y r) rest stop
        (λ t w. record { on_left = w.on_left; on_right = omega (arith, w.on_right, size) }) h'
        (o h')

  group_loop_lem :
      (rounds a b limit : ℕ) (l r : List T) (n : ℕ) (out : List T) (ops : List ℕ)
      → rounds ≤ a + b
      → a ≤ length l
      → b ≤ length r
      → let s : Merging T = record {
        left_rest = l;
        right_rest = r;
        taken = n;
        result = out;
        take_left = ops;
      } in
        Replays s → Outcome a b s (group_loop C rounds a b limit s)
  unfolding group_loop left_next
  group_loop_lem zero a b limit l r n out ops e p q h = record {
    broke = false;
    after = record { left_rest = l; right_rest = r; taken = n; result = out; take_left = ops };
    returns = refl;
    replays = h;
    within = record { on_left = omega arith; on_right = omega arith };
  }
  group_loop_lem (suc rounds) zero zero limit l r n out ops e p q h = absurd (omega arith)
  group_loop_lem (suc rounds) (suc a) zero limit [] r n out ops e p q h = absurd (omega arith)
  group_loop_lem (suc rounds) (suc a) zero limit (x ∷ l) r n out ops e p q h =
      step_left a zero _ x l _ (n + 1 == limit) refl h (
        group_loop_lem rounds (suc a - 1) zero limit l r (n + 1) (out ++ x ∷ []) (ops ++ 1 ∷ [])
          (omega arith) (omega arith) q)
  group_loop_lem (suc rounds) zero (suc b) limit l [] n out ops e p q h = absurd (omega arith)
  group_loop_lem (suc rounds) zero (suc b) limit l (y ∷ r) n out ops e p q h =
      step_right zero b _ y r _ (n + 1 == limit) refl h (
        group_loop_lem rounds zero (suc b - 1) limit l r (n + 1) (out ++ y ∷ []) (ops ++ 0 ∷ [])
          (omega arith) p (omega arith))
  group_loop_lem (suc rounds) (suc a) (suc b) limit [] r n out ops e p q h = absurd (omega arith)
  group_loop_lem (suc rounds) (suc a) (suc b) limit (x ∷ l) [] n out ops e p q h =
      absurd (omega arith)
  group_loop_lem (suc rounds) (suc a) (suc b) limit (x ∷ l) (y ∷ r) n out ops e p q h =
      elim (Bool-cases (C.cmp_eq x y)) [
        | inl c ↦ rw c (
            step_left a (suc b) _ x l _ (n + 1 == limit) refl h (
              group_loop_lem rounds (suc a - 1) (suc b) limit l (y ∷ r) (n + 1) (out ++ x ∷ [])
                (ops ++ 1 ∷ []) (omega arith) (omega arith) q))
        | inr c ↦ rw c (
            step_right (suc a) b _ y r _ (n + 1 == limit) refl h (
              group_loop_lem rounds (suc a) (suc b - 1) limit (x ∷ l) r (n + 1) (out ++ y ∷ [])
                (ops ++ 0 ∷ []) (omega arith) p (omega arith)))
      ]

  groups_loop_lem :
      (partitioning : List Premerge) (limit : ℕ) (s : Merging T)
      → lefts partitioning ≤ length s.left_rest
      → rights partitioning ≤ length s.right_rest
      → Replays s
      → (s' : Merging T) × (groups_loop C partitioning limit s ≡ some s') × Replays s'
  unfolding groups_loop
  groups_loop_lem [] limit s p q h = (s, refl, h)
  groups_loop_lem (group ∷ groups) limit s p q h =
      let o =
        group_loop_lem ((group.left + group.right) % 2 ^ 32) group.left group.right limit
          s.left_rest s.right_rest s.taken s.result s.take_left
          (mod-le (group.left + group.right) (2 ^ 32)) (omega arith) (omega arith) h in
      elim (Bool-cases o.broke) [
        | inl b ↦ rw (o.returns, b, groups_loop) (o.after, refl, o.replays)
        | inr b ↦
            rw (o.returns, b, groups_loop)
              (groups_loop_lem groups limit o.after (omega (arith, o.within.on_left))
                (omega (arith, o.within.on_right)) o.replays)
      ]

-- When the groups fit both columns: `merge_partitioned` reads no element out of range, and
-- `merge_keep` by its ops returns, of the same columns, the column that it returned.
pub merge_partitioned-merge_keep {ℓ} :
    {T : Type ℓ} (C : Comparator T) (partitioning : List Premerge) (left right : List T) (limit : ℕ)
    → lefts partitioning ≤ length left
    → rights partitioning ≤ length right
    → (merged : List T) × (ops : List ℕ) × (merge_partitioned C partitioning left right limit
        ≡ some (merged, ops))
      × (merge_keep ops left right ≡ some merged)
unfolding merge_partitioned merge_keep Replays keep_loop
merge_partitioned-merge_keep C partitioning left right limit p q =
    let (s, returns, replays) =
      groups_loop_lem C left right partitioning limit
        (record { left_rest = left; right_rest = right; taken = 0; result = []; take_left = [] }) p
        q (λ later. refl) in
    (
      s.result,
      s.take_left,
      rw (returns, merge_partitioned) refl,
      ap (λ ops. keep_loop ops left right []) (sym (append-nil s.take_left)) ∙ replays [],
    )
