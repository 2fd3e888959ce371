-- ===== src/Bitvec.antt =====
-- src/bitvec.rs: a bit vector in a growable vector of bytes.
pub mod Laws
use Prim.Native.Nat.{bit_and, bit_or}
use locust_db.Prelude.{
  ℕ, zero, suc, ◌-◌, ◌+◌, ◌/◌, ◌%◌, ◌^◌, Bool, none, some, List, [], ◌∷◌, ◌++◌, ltb, ◌&&◌, length,
  get_elem?, set as set_elem,
}

-- `while slot >= self.len() { self.push(0); }`: as many rounds as the slot is past the end
grow : (rounds : ℕ) → List ℕ → List ℕ
grow zero bytes = bytes
grow (suc rounds) bytes = grow rounds (bytes ++ 0 ∷ [])

-- `bytes[slot]`, for a slot in range
abbrev byte_at : List ℕ → ℕ → ℕ
byte_at bytes slot = elim (get_elem? bytes slot) [ none ↦ 0 | some b ↦ b ]

-- `1 << (index as u8 & 7)`
abbrev mask : ℕ → ℕ
mask index = 2 ^ (index % 256 % 8)

unfoldable pub set : List ℕ → ℕ → List ℕ
unfolding grow
set bytes index =
    let slot = index / 8 in
    let grown = grow (slot + 1 - length bytes) bytes in
    set_elem grown slot (bit_or (byte_at grown slot) (mask index))

-- The two implementations, of `Vec<u8>` and of `&[u8]`, have one body.
unfoldable pub is_set : List ℕ → ℕ → Bool
is_set bytes index =
    let slot = index / 8 in
    ltb slot (length bytes) && ltb 0 (bit_and (byte_at bytes slot) (mask index))
