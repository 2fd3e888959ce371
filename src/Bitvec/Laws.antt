-- ===== src/Bitvec/Laws.antt =====
-- Setting and reading bits (src/bitvec.rs).
use Prim.Native.Nat.{bit_and, bit_or, bit_and-bitwise}
use locust_db.Prelude.{
  ℕ, zero, suc, ◌-◌, ◌+◌, ◌/◌, ◌%◌, ◌^◌, ◌<◌, ◌≡◌, refl, ap, sym, ◌∙◌, Bool, true, false, inl, inr,
  Bool-cases, List, [], ◌∷◌, ◌++◌, ltb, ◌==◌, ==_iff, ◌&&◌, ◌||◌, length, length-append,
  set as set_elem, replicate, arith, append-nil, append_assoc, All, All-append, max, if◌then◌else◌,
  ltb→lt, length-set, length-replicate,
}
use locust_db.Bitvec.{grow, byte_at, mask, set, is_set}

-- A test on all bytes, or on all bits of a byte, is decided by running it.
passes : (test : ℕ → Bool) (bound : ℕ) → Bool
passes test zero = true
passes test (suc m) = passes test m && test m

passes_lem : (test : ℕ → Bool) (bound i : ℕ) → i < bound → passes test bound ≡ true → test i ≡ true
unfolding passes
passes_lem test zero i b e = absurd (omega arith)
passes_lem test (suc m) i b e = ground (arith, passes_lem test m i)

abbrev bool_eq : Bool → Bool → Bool
bool_eq a b = elim a [ true ↦ b | false ↦ elim b [ true ↦ false | false ↦ true ] ]

bool_eq_lem : (a b : Bool) → bool_eq a b ≡ true → a ≡ b
bool_eq_lem a b h = ground arith

abbrev bit : ℕ → ℕ → Bool
bit b k = ltb 0 (bit_and b (2 ^ k))

abbrev or_agrees : ℕ → ℕ → ℕ → Bool
or_agrees k j b =
    bool_eq (bit (bit_or b (2 ^ k)) j) (k == j || bit b j) && ltb (bit_or b (2 ^ k)) 256

abbrev or_table : Bool
or_table = passes (λ k. passes (λ j. passes (or_agrees k j) 256) 8) 8

or_table-true : or_table ≡ true
unfolding passes
or_table-true = refl

or_agrees_lem : (k j b : ℕ) → k < 8 → j < 8 → b < 256 → or_agrees k j b ≡ true
or_agrees_lem k j b hk hj hb = passes_lem (or_agrees k j) 256 b hb (
    passes_lem (λ j. passes (or_agrees k j) 256) 8 j hj
      (passes_lem (λ k. passes (λ j. passes (or_agrees k j) 256) 8) 8 k hk or_table-true))

and_left : (a b : Bool) → (a && b) ≡ true → a ≡ true
and_left a b h = ground arith

and_right : (a b : Bool) → (a && b) ≡ true → b ≡ true
and_right a b h = ground arith

grow_lem : (n : ℕ) (bytes : List ℕ) → grow n bytes ≡ bytes ++ replicate n 0
unfolding grow
grow_lem zero bytes = sym (append-nil bytes)
grow_lem (suc n) bytes = grow_lem n (bytes ++ 0 ∷ []) ∙ append_assoc bytes (0 ∷ []) (replicate n 0)

byte_at-zeros : (n slot : ℕ) → byte_at (replicate n 0) slot ≡ 0
byte_at-zeros zero slot = refl
byte_at-zeros (suc n) zero = refl
byte_at-zeros (suc n) (suc slot) = byte_at-zeros n slot

byte_at-append :
    (bytes : List ℕ) (n slot : ℕ) → byte_at (bytes ++ replicate n 0) slot ≡ byte_at bytes slot
byte_at-append [] n slot = byte_at-zeros n slot
byte_at-append (b ∷ bytes) n zero = refl
byte_at-append (b ∷ bytes) n (suc slot) = byte_at-append bytes n slot

byte_at-grow :
    (n : ℕ) (bytes : List ℕ) (slot : ℕ) → byte_at (grow n bytes) slot ≡ byte_at bytes slot
byte_at-grow n bytes slot = rw (grow_lem n bytes) (byte_at-append bytes n slot)

length-grow : (n : ℕ) (bytes : List ℕ) → length (grow n bytes) ≡ length bytes + n
length-grow n bytes =
    rw (grow_lem n bytes)
      (omega (arith, length-append bytes (replicate n 0), length-replicate {A = ℕ} n 0))

byte_at_outside : (bytes : List ℕ) (slot : ℕ) → length bytes < slot + 1 → byte_at bytes slot ≡ 0
byte_at_outside [] slot h = refl
byte_at_outside (b ∷ bytes) zero h = absurd (omega arith)
byte_at_outside (b ∷ bytes) (suc slot) h = byte_at_outside bytes slot (omega arith)

byte_at-lt : (bytes : List ℕ) (slot : ℕ) → All (λ b. b < 256) bytes → byte_at bytes slot < 256
byte_at-lt [] slot h = omega arith
byte_at-lt (b ∷ bytes) zero h = h.0
byte_at-lt (b ∷ bytes) (suc slot) h = byte_at-lt bytes slot h.1

byte_at-set :
    (bytes : List ℕ) (i j v : ℕ)
    → i < length bytes
    → byte_at (set_elem bytes i v) j ≡ (if i == j then v else byte_at bytes j)
byte_at-set [] i j v h = absurd (omega arith)
byte_at-set (b ∷ bytes) zero zero v h = refl
byte_at-set (b ∷ bytes) zero (suc j) v h = ground arith
byte_at-set (b ∷ bytes) (suc i) zero v h = ground arith
byte_at-set (b ∷ bytes) (suc i) (suc j) v h = byte_at-set bytes i j v (omega arith) ∙ ground arith

no_bits : (m : ℕ) → bit_and 0 m ≡ 0
no_bits m = bit_and-bitwise 0 m

is_set_lem : (bytes : List ℕ) (j : ℕ) → is_set bytes j ≡ bit (byte_at bytes (j / 8)) (j % 256 % 8)
unfolding is_set
is_set_lem bytes j = elim (Bool-cases (ltb (j / 8) (length bytes))) [
  | inl h ↦ rw h refl
  | inr h ↦ rw (h, byte_at_outside bytes (j / 8) (ground arith), no_bits (2 ^ (j % 256 % 8))) refl
]

pub is_set-zeros : (n j : ℕ) → is_set (replicate n 0) j ≡ false
is_set-zeros n j =
    is_set_lem (replicate n 0) j ∙ rw (byte_at-zeros n (j / 8), no_bits (2 ^ (j % 256 % 8))) refl

set-All :
    (bytes : List ℕ) (i v : ℕ)
    → All (λ b. b < 256) bytes
    → v < 256
    → All (λ b. b < 256) (set_elem bytes i v)
set-All [] i v h k = tt
set-All (b ∷ bytes) zero v h k = (k, h.1)
set-All (b ∷ bytes) (suc i) v h k = (h.0, set-All bytes i v h.1 k)

pub replicate-All : (n : ℕ) → All (λ b. b < 256) (replicate n 0)
replicate-All zero = tt
replicate-All (suc n) = (omega arith, replicate-All n)

same_bit : (i j : ℕ) → (i / 8 == j / 8 && i % 256 % 8 == j % 256 % 8) ≡ (i == j)
same_bit i j = ground arith

-- A bit of the byte that `set` writes, and that it is a byte.
written :
    (b i j : ℕ)
    → b < 256
    → (bit (bit_or b (mask i)) (j % 256 % 8) ≡ (i % 256 % 8 == j % 256 % 8 || bit b (j % 256 % 8)))
      × (bit_or b (mask i) < 256)
written b i j h =
    let both = or_agrees_lem (i % 256 % 8) (j % 256 % 8) b (omega arith) (omega arith) h in
    (bool_eq_lem _ _ (and_left _ _ both), ltb→lt _ _ (and_right _ _ both))

is_set-set_elem :
    (bytes : List ℕ) (i j : ℕ)
    → All (λ b. b < 256) bytes
    → i / 8 < length bytes
    → is_set (set_elem bytes (i / 8) (bit_or (byte_at bytes (i / 8)) (mask i))) j
      ≡ (i == j || is_set bytes j)
is_set-set_elem bytes i j h inside =
    let bits = (written (byte_at bytes (i / 8)) i j (byte_at-lt bytes (i / 8) h)).0 in
    let v = bit_or (byte_at bytes (i / 8)) (mask i) in
    is_set_lem (set_elem bytes (i / 8) v) j
    ∙ ap (λ b. bit b (j % 256 % 8)) (byte_at-set bytes (i / 8) (j / 8) v inside)
    ∙ elim (Bool-cases (i / 8 == j / 8)) [
      | inl e ↦
          rw e (bits ∙ ground (arith, is_set_lem bytes j, ==_iff (i / 8) (j / 8), same_bit i j))
      | inr e ↦ rw e (ground (arith, is_set_lem bytes j, same_bit i j))
    ]

is_set-grow : (n : ℕ) (bytes : List ℕ) (j : ℕ) → is_set (grow n bytes) j ≡ is_set bytes j
is_set-grow n bytes j =
    is_set_lem (grow n bytes) j
    ∙ ap (λ b. bit b (j % 256 % 8)) (byte_at-grow n bytes (j / 8))
    ∙ sym (is_set_lem bytes j)

grow-All : (n : ℕ) (bytes : List ℕ) → All (λ b. b < 256) bytes → All (λ b. b < 256) (grow n bytes)
grow-All n bytes h =
    rw (grow_lem n bytes) (All-append (λ b. b < 256) bytes (replicate n 0) h (replicate-All n))

-- After `set` of an index, `is_set` holds of that index and of those where it held before, whether
-- or not the vector had to grow; the elements stay bytes, and the vector is just long enough.
pub set_lem :
    (bytes : List ℕ) (i j : ℕ)
    → All (λ b. b < 256) bytes
    → (is_set (set bytes i) j ≡ (i == j || is_set bytes j))
      × All (λ b. b < 256) (set bytes i)
      × (length (set bytes i) ≡ max (length bytes) (i / 8 + 1))
unfolding set
set_lem bytes i j h =
    let n = i / 8 + 1 - length bytes in
    let all = grow-All n bytes h in
    let inside : i / 8 < length (grow n bytes) = omega (arith, length-grow n bytes) in
    (
      is_set-set_elem (grow n bytes) i j all inside ∙ ap (λ b. i == j || b) (is_set-grow n bytes j),
      set-All (grow n bytes) (i / 8) _ all
          (written (byte_at (grow n bytes) (i / 8)) i i (byte_at-lt (grow n bytes) (i / 8) all)).1,
      length-set (grow n bytes) (i / 8) _ ∙ omega (arith, length-grow n bytes),
    )
