-- ===== src/Engine/Operators/TopN/Heap.antt =====
-- `heap_replace` keeps a heap.
use locust_db.Prelude.{
  ℕ, zero, suc, ◌+◌, ◌-◌, ◌*◌, ◌/◌, ◌<◌, ◌≤◌, ◌≡◌, ◌≢◌, ◌⊎◌, refl, ◌∙◌, Bool, true, false, inl, inr,
  Bool-cases, List, length, length-set, set, ltb, ◌==◌, arith, ltb→lt,
}
use locust_db.Prelude.Arrays.{
  get_or, get_or-set, count, count-set, zip, zip-set, get_or-zip, length-zip, one,
}
use locust_db.Engine.Operators.Comparator.{Comparator, IsOrder}
use locust_db.Engine.Operators.TopN.{left_next, right_next, heap_loop}

module _ {ℓ} {T : Type ℓ} (C : Comparator T) (law : IsOrder C) where
  pub asym : (a b : T) → C.cmp a b ≡ true → C.cmp b a ≡ false
  asym a b h = elim (Bool-cases (C.cmp b a)) [
    | inl k ↦ ground (arith, law.trans a b a h k, law.irrefl a)
    | inr k ↦ k
  ]

  pub not_trans : (a b c : T) → C.cmp a b ≡ false → C.cmp b c ≡ false → C.cmp a c ≡ false
  not_trans a b c h k = elim (Bool-cases (C.cmp a c)) [
    | inr e ↦ e
    | inl e ↦ elim (Bool-cases (C.cmp b a)) [
      | inl f ↦ ground (arith, law.trans b a c f e)
      | inr f ↦ let same = law.connected a b h f in rw same k
    ]
  ]

  -- No row comes before its parent's.
  abbrev pub IsHeap : List T → T → Type 0
  IsHeap keys d =
      (c : ℕ)
      → 0 < c
      → c < length keys
      → C.cmp (get_or keys ((c - 1) / 2) d) (get_or keys c d) ≡ false

  -- The same but for a row `node`, whose place is to be taken by `key`.
  pub record HasHole (keys : List T) (key : T) (node : ℕ) : Type 0 where
    pub inside : node < length keys
    pub others :
        (c : ℕ)
        → 0 < c
        → c < length keys
        → c ≢ node
        → (c - 1) / 2 ≢ node
        → C.cmp (get_or keys ((c - 1) / 2) key) (get_or keys c key) ≡ false
    pub across :
        (c : ℕ)
        → 0 < node
        → 0 < c
        → c < length keys
        → (c - 1) / 2 ≡ node
        → C.cmp (get_or keys ((node - 1) / 2) key) (get_or keys c key) ≡ false
    pub above : 0 < node → C.cmp (get_or keys ((node - 1) / 2) key) key ≡ false

  module _ (keys : List T) (key : T) (node : ℕ) (h : HasHole keys key node) where
    -- The child `m` moves up: `key` comes before it, and it does not come before its sibling.
    move :
        (m : ℕ)
        → 0 < m
        → m < length keys
        → (m - 1) / 2 ≡ node
        → C.cmp key (get_or keys m key) ≡ true
        → ((c : ℕ)
            → 0 < c
            → c < length keys
            → (c - 1) / 2 ≡ node
            → C.cmp (get_or keys m key) (get_or keys c key) ≡ false)
        → HasHole (set keys node (get_or keys m key)) key m
    move m pos small up first sibling =
        let v = get_or keys m key in
        let at = λ (c : ℕ). get_or-set keys node c v key h.inside in
        let size = length-set keys node v in
        record {
          inside = omega (arith, size);
          others = λ c p q ne up'.
              ground (arith, size, at ((c - 1) / 2), at c, sibling c, h.across m, h.others c);
          across = λ c pm p q e. ground (arith, size, at ((m - 1) / 2), at c, h.others c);
          above = λ pm. ground (arith, at ((m - 1) / 2), asym key v first);
        }

    place :
        ((c : ℕ)
          → 0 < c
          → c < length keys
          → (c - 1) / 2 ≡ node
          → C.cmp key (get_or keys c key) ≡ false)
        → IsHeap (set keys node key) key
    place below c p q =
        let at = λ (c : ℕ). get_or-set keys node c key key h.inside in
        ground
          (arith, length-set keys node key, at ((c - 1) / 2), at c, below c, h.others c, h.above)

  module _ (keys : List T) (key : T) (node : ℕ) where
    left_sibling :
        (c : ℕ)
        → left_next C keys key node ≡ true
        → 0 < c
        → c < length keys
        → (c - 1) / 2 ≡ node
        → C.cmp (get_or keys (2 * node + 1) key) (get_or keys c key) ≡ false
    left_sibling c h p q e =
        let left = get_or keys (2 * node + 1) key in
        let right = get_or keys (2 * node + 2) key in
        elim (Bool-cases (c == 2 * node + 1)) [
          | inl f ↦ ground (arith, law.irrefl left)
          | inr f ↦
              let is_right : c ≡ 2 * node + 2 = ground arith in
              ground (arith, is_right, asym right left)
        ]

    right_sibling :
        (c : ℕ)
        → left_next C keys key node ≡ false
        → right_next C keys key node ≡ true
        → 0 < c
        → c < length keys
        → (c - 1) / 2 ≡ node
        → C.cmp (get_or keys (2 * node + 2) key) (get_or keys c key) ≡ false
    right_sibling c h k p q e =
        let left = get_or keys (2 * node + 1) key in
        let right = get_or keys (2 * node + 2) key in
        elim (Bool-cases (c == 2 * node + 1)) [
          | inl f ↦
              let is_left : c ≡ 2 * node + 1 = ground arith in
              ground (arith, is_left, law.trans key right left)
          | inr f ↦
              let is_right : c ≡ 2 * node + 2 = ground arith in
              ground (arith, is_right, law.irrefl right)
        ]

    no_child :
        (c : ℕ)
        → left_next C keys key node ≡ false
        → right_next C keys key node ≡ false
        → 0 < c
        → c < length keys
        → (c - 1) / 2 ≡ node
        → C.cmp key (get_or keys c key) ≡ false
    no_child c h k p q e =
        let left = get_or keys (2 * node + 1) key in
        let right = get_or keys (2 * node + 2) key in
        elim (Bool-cases (c == 2 * node + 1)) [
          | inl f ↦
              let is_left : c ≡ 2 * node + 1 = ground arith in
              ground (arith, is_left, not_trans key right left)
          | inr f ↦ let is_right : c ≡ 2 * node + 2 = ground arith in ground (arith, is_right)
        ]

  module _ (fuel : ℕ) (keys : List T) (values : List ℕ) (key : T) (value node : ℕ) where
    -- The loop ends at a row without children, or that `key` comes before neither of.
    abbrev Ends : Type 0
    Ends =
        (c : ℕ)
        → 0 < c
        → c < length keys
        → (c - 1) / 2 ≡ node
        → C.cmp key (get_or keys c key) ≡ false

    -- One round of the loop, with what its tests say.
    heap_loop-cases :
        ((heap_loop C (suc fuel) keys values key value node
            ≡ (set keys node key, set values node value))
          × Ends)
        ⊎ ((m : ℕ) × (node < m)
            × (m < length keys)
            × ((m - 1) / 2 ≡ node)
            × (C.cmp key (get_or keys m key) ≡ true)
            × ((c : ℕ)
                → 0 < c
                → c < length keys
                → (c - 1) / 2 ≡ node
                → C.cmp (get_or keys m key) (get_or keys c key) ≡ false)
            × (heap_loop C (suc fuel) keys values key value node
                ≡ heap_loop C fuel
                    (set keys node (get_or keys m key))
                    (set values node (get_or values m value))
                    key
                    value
                    m))
    unfolding heap_loop
    heap_loop-cases = elim (Bool-cases (ltb (2 * node + 1) (length keys))) [
      | inr t ↦ inl (rw (t, heap_loop) refl, λ c p q f. absurd (ground arith))
      | inl t ↦ elim (Bool-cases (left_next C keys key node)) [
        | inl l ↦ inr (
          2 * node + 1,
          omega arith,
          ltb→lt _ _ t,
          omega arith,
          ground arith,
          λ c. left_sibling keys key node c l,
          rw (t, l, heap_loop) refl,
        )
        | inr l ↦ elim (Bool-cases (right_next C keys key node)) [
          | inl r ↦ inr (
            2 * node + 2,
            omega arith,
            ground arith,
            omega arith,
            ground arith,
            λ c. right_sibling keys key node c l r,
            rw (t, l, r, heap_loop) refl,
          )
          | inr r ↦ inl (rw (t, l, r, heap_loop) refl, λ c. no_child keys key node c l r)
        ]
      ]
    ]

  pub heap_loop-IsHeap :
      (fuel : ℕ) (keys : List T) (values : List ℕ) (key : T) (value node : ℕ)
      → HasHole keys key node
      → length keys ≤ node + fuel
      → IsHeap (heap_loop C fuel keys values key value node).0 key
  heap_loop-IsHeap zero keys values key value node h e = absurd (omega (arith, h.inside))
  heap_loop-IsHeap (suc fuel) keys values key value node h e =
      elim (heap_loop-cases fuel keys values key value node) [
        | inl (run, below) ↦ rw run (place keys key node h below)
        | inr (m, down, small, up, first, sibling, run) ↦ rw run (
            heap_loop-IsHeap fuel (set keys node (get_or keys m key))
              (set values node (get_or values m value)) key value m
              (move keys key node h m (omega arith) small up first sibling)
              (omega (arith, length-set keys node (get_or keys m key))))
      ]

  -- What a call leaves: as many keys and values, and all rows but the one whose place was taken.
  pub record Replaces (keys : List T) (values : List ℕ) (key : T) (value node : ℕ)
      (r : List T × List ℕ) : Type ℓ where
    pub keys_length : length r.0 ≡ length keys
    pub values_length : length r.1 ≡ length values
    pub contents :
        (p : T × ℕ → Bool)
        → count p (zip r.0 r.1) + one (p (get_or keys node key, get_or values node value))
          ≡ count p (zip keys values) + one (p (key, value))

  contents_set :
      (p : T × ℕ → Bool) (keys : List T) (values : List ℕ) (node : ℕ) (v d : T) (w e : ℕ)
      → node < length keys
      → length keys ≡ length values
      → count p (zip (set keys node v) (set values node w))
          + one (p (get_or keys node d, get_or values node e))
        ≡ count p (zip keys values) + one (p (v, w))
  contents_set p keys values node v d w e h same =
      rw (zip-set keys values node v w, ← get_or-zip keys values node d e h (omega arith))
        (count-set p (zip keys values) node (v, w) (d, e)
          (omega (arith, length-zip keys values same)))

  replaced :
      (keys : List T) (values : List ℕ) (key : T) (value node : ℕ)
      → node < length keys
      → length keys ≡ length values
      → Replaces keys values key value node (set keys node key, set values node value)
  replaced keys values key value node h e = record {
    keys_length = length-set keys node key;
    values_length = length-set values node value;
    contents = λ p. contents_set p keys values node key key value value h e;
  }

  pub heap_loop-Replaces :
      (fuel : ℕ) (keys : List T) (values : List ℕ) (key : T) (value node : ℕ)
      → node < length keys
      → length keys ≡ length values
      → Replaces keys values key value node (heap_loop C fuel keys values key value node)
  unfolding heap_loop
  heap_loop-Replaces zero keys values key value node h e = replaced keys values key value node h e
  heap_loop-Replaces (suc fuel) keys values key value node h e =
      elim (heap_loop-cases fuel keys values key value node) [
        | inl (run, below) ↦ rw run (replaced keys values key value node h e)
        | inr (m, down, small, up, first, sibling, run) ↦
            let v = get_or keys m key in
            let w = get_or values m value in
            let ih =
              heap_loop-Replaces fuel (set keys node v) (set values node w) key value m
                (omega (arith, length-set keys node v))
                (omega (arith, length-set keys node v, length-set values node w)) in
            let keys_at : get_or (set keys node v) m key ≡ v =
              ground (arith, get_or-set keys node m v key h) in
            let values_at : get_or (set values node w) m value ≡ w =
              ground (arith, get_or-set values node m w value (omega arith)) in
            rw run record {
              keys_length = ih.keys_length ∙ length-set keys node v;
              values_length = ih.values_length ∙ length-set values node w;
              contents = λ p.
                  let now = contents_set p keys values node v key w value h e in
                  let later = ih.contents p in omega (arith, now, rw (keys_at, values_at) at later);
            }
      ]
