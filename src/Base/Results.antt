-- ===== src/Base/Results.antt =====
-- The return codes of the C functions, as values.
use mathlib.Core.Path.{◌≡◌, refl}
use mathlib.Core.Logic.{◌⊎◌, inl, inr}
use native.Mathlib.Omega.{arith}
use mathlib.Core.Bool.{Bool, true, false}

-- The `errno` values that the code returns negated.
pub data Errno : Type 0 where
  einval eilseq eio ebadf erange eexist exdev eopnotsupp enospc euclean enomem ebade : Errno
  enoent ebusy eagain enametoolong : Errno

pub data Result {ℓ} (A : Type ℓ) : Type ℓ where
  ok : A → Result A
  err : Errno → Result A

-- A function that returns `0` or a negative `errno`.
abbrev pub Rc : Type 0
Rc = Result (Unit {0})

infixl 5 ◌>>=◌ ◌>>◌
abbrev pub ◌>>=◌ {ℓ κ} : {A : Type ℓ} {B : Type κ} → Result A → (A → Result B) → Result B
ok a >>= f = f a
err e >>= f = err e

abbrev pub ◌>>◌ {ℓ} : {B : Type ℓ} → Rc → Result B → Result B
m >> k = m >>= λ _. k

-- `if (bad) return -e;`
abbrev pub fail_if : Bool → Errno → Rc
fail_if true e = err e
fail_if false e = ok tt

pub Result-cases {ℓ} :
    {A : Type ℓ} (r : Result A) → ((e : Errno) × (r ≡ err e)) ⊎ ((a : A) × (r ≡ ok a))
Result-cases (ok a) = inr (a, refl)
Result-cases (err e) = inl (e, refl)

-- A chain that succeeds, taken apart at its first step.
pub bind_ok {ℓ κ} :
    {A : Type ℓ} {B : Type κ} (r : Result A) (f : A → Result B) (b : B)
    → (r >>= f) ≡ ok b
    → (a : A) × (r ≡ ok a) × (f a ≡ ok b)
bind_ok (ok a) f b h = (a, refl, h)
bind_ok (err e) f b h = absurd (ground arith)

pub seq_ok {ℓ} :
    {B : Type ℓ} (m : Rc) (k : Result B) (b : B) → (m >> k) ≡ ok b → (m ≡ ok tt) × (k ≡ ok b)
seq_ok (ok _) k b h = (refl, h)
seq_ok (err e) k b h = absurd (ground arith)

pub ok_inj {ℓ} : {A : Type ℓ} {a b : A} → ok a ≡ ok b → a ≡ b
ok_inj h = ground (arith, h)
