-- ===== src/Base/Outcome.antt =====
-- What a call of fallible code ends in: `Ok`, `Err` with an `errno`, or a panic.
use Prim.Native.Nat.{ℕ}
use mathlib.Core.Path.{◌≡◌, refl}
use mathlib.Core.Logic.{◌⊎◌, inl, inr}
use mathlib.Core.Bool.{Bool, true, false}
use mathlib.Core.Option.{Option, none, some}

-- The error numbers that the modelled code names; any other is given by its number.
pub data Errno : Type 0 where
  eacces eagain ebadf ebadfd ebadmsg eintr einval eio eisdir enoent enolck enosys enotdir eopnotsupp
        eoverflow eproto espipe estale ewouldblock :
      Errno
  other : ℕ → Errno

pub data Outcome {ℓ} (A : Type ℓ) : Type ℓ where
  ok : A → Outcome A
  err : Errno → Outcome A
  panicked : Outcome A

infixl 5 ◌>>=◌
abbrev pub ◌>>=◌ {ℓ κ} : {A : Type ℓ} {B : Type κ} → Outcome A → (A → Outcome B) → Outcome B
ok a >>= f = f a
err e >>= f = err e
panicked >>= f = panicked

-- `o.ok_or(Error::new(e))`
abbrev pub ok_or {ℓ} : {A : Type ℓ} → Errno → Option A → Outcome A
ok_or e none = err e
ok_or e (some a) = ok a

-- `o.unwrap()`, and an index or a slice that the run-time check refuses
abbrev pub unwrap {ℓ} : {A : Type ℓ} → Option A → Outcome A
unwrap none = panicked
unwrap (some a) = ok a

-- `assert!(b)`
abbrev pub assert : Bool → Outcome (Unit {0})
assert true = ok tt
assert false = panicked

-- It ended well, or it gives no value to whatever comes next.
pub Outcome-cases {ℓ} :
    {A : Type ℓ} (o : Outcome A)
    → ((a : A) × (o ≡ ok a)) ⊎ (((e : Errno) × (o ≡ err e)) ⊎ (o ≡ panicked))
Outcome-cases (ok a) = inl (a, refl)
Outcome-cases (err e) = inr (inl (e, refl))
Outcome-cases panicked = inr (inr refl)
