-- ===== src/Base/ReadFull.antt =====
-- Go's `io.ReadFull`.
use Prim.Native.Nat.{ℕ, zero, suc}
use mathlib.Core.Path.{◌≡◌, refl, ap}
use mathlib.Core.Logic.{inl, inr}
use mathlib.Core.List.{[], ◌∷◌, ◌++◌}
use mathlib.Core.Option.{Option, none, some}
use native.Mathlib.Omega.{arith}
use svcdoctor.Base.Tests.{Option-cases}
use svcdoctor.Base.Lists.{length}
use svcdoctor.Base.Bytes.{Bytes}

-- `io.ReadFull` into a buffer of `n` bytes
unfoldable pub read_bytes : ℕ → Bytes → Option (Bytes × Bytes)
read_bytes zero bs = some ([], bs)
read_bytes (suc n) [] = none
read_bytes (suc n) (b ∷ bs) = elim (read_bytes n bs) [
  | none ↦ none
  | some (got, rest) ↦ some (b ∷ got, rest)
]

pub read_bytes-concat : (xs ys : Bytes) → read_bytes (length xs) (xs ++ ys) ≡ some (xs, ys)
unfolding read_bytes
read_bytes-concat [] ys = refl
read_bytes-concat (x ∷ xs) ys = rw (read_bytes-concat xs ys) refl

pub read_bytes-some :
    (n : ℕ) (bs got rest : Bytes)
    → read_bytes n bs ≡ some (got, rest)
    → (bs ≡ got ++ rest) × (length got ≡ n)
unfolding read_bytes
read_bytes-some zero bs got rest h = ground arith
read_bytes-some (suc n) [] got rest h = cc
read_bytes-some (suc n) (b ∷ bs) got rest h = elim (Option-cases (read_bytes n bs)) [
  | inl short ↦ absurd (ground arith)
  | inr ((got', rest'), e) ↦
      let (split, size) = read_bytes-some n bs got' rest' e in
      let same : (b ∷ got' ≡ got) × (rest' ≡ rest) = ground arith in
      (rw (← same.0, ← same.1, split) refl, rw (← same.0) (ap suc size))
]
