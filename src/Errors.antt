-- ===== src/Errors.antt =====
-- src/errors.rs: the errors of a query, without their messages, and what a fallible operator
-- returns. An operator that indexes out of range, or unwraps nothing, panics.
use locust_db.Prelude.{◌≡◌, refl, Option, none, some}

pub data QueryError : Type 0 where
  sytax_error_chars_remaining syntax_error_bytes_remaining parse_error fatal_error : QueryError
  not_implemented type_error overflow : QueryError

pub data Result {ℓ} (A : Type ℓ) : Type ℓ where
  ok : A → Result A
  err : QueryError → Result A
  panic : Result A

infixl 10 ◌>>=◌
-- `?` on a result: what follows it, or the early return
abbrev pub ◌>>=◌ {κ μ} : {T : Type κ} {U : Type μ} → Result T → (rest : T → Result U) → Result U
panic >>= rest = panic
err error >>= rest = err error
ok value >>= rest = rest value

-- `l[i]` and `o.unwrap()`
abbrev pub unwrap {ℓ} : {A : Type ℓ} → Option A → Result A
unwrap none = panic
unwrap (some a) = ok a

pub ok-injective {ℓ} : {A : Type ℓ} {a b : A} → ok a ≡ ok b → a ≡ b
ok-injective h = cc

-- What a chain that returns has gone through.
pub bind_inv {ℓ κ} :
    {A : Type ℓ} {B : Type κ} (r : Result A) (f : A → Result B) (b : B)
    → (r >>= f) ≡ ok b
    → (a : A) × (r ≡ ok a) × (f a ≡ ok b)
bind_inv (ok a) f b h = (a, refl, h)
bind_inv (err e) f b h = cc
bind_inv panic f b h = cc
