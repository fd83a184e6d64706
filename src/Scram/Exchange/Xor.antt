-- ===== src/Scram/Exchange/Xor.antt =====
-- The XOR of internal/sasl/scram/scram.go is undone by a second one.
use svcdoctor.Base.{
  ℕ, zero, suc, ◌<◌, ◌+◌, ◌*◌, ◌/◌, ◌%◌, ◌^◌, [], ◌∷◌, All, length, ◌≡◌, refl, arith,
}
use mathlib.Core.Path.{ap₂}
use svcdoctor.Base.Bytes.{Bytes}
use svcdoctor.Scram.Exchange.{xor, xor_bytes}

double : (k : ℕ) → 2 ^ suc k ≡ 2 * 2 ^ k
double k = omega arith

halves : (a n : ℕ) → a < 2 * n → a / 2 < n
halves a n h = omega arith

half : (p x : ℕ) → p < 2 → (p + 2 * x) / 2 ≡ x
half p x h = omega arith

xor_cancel : (k a b : ℕ) → a < 2 ^ k → xor k (xor k a b) b ≡ a
unfolding xor
xor_cancel zero a b h = omega arith
xor_cancel (suc k) a b h =
    let x = xor k (a / 2) (b / 2) in
    let small : a / 2 < 2 ^ k = halves a (2 ^ k) (rw (← double k) h) in
    rw (half ((a + b) % 2) x (omega arith), xor_cancel k (a / 2) (b / 2) small) (parity a b x)
  where
    parity : (a b x : ℕ) → ((a + b) % 2 + 2 * x + b) % 2 + 2 * (a / 2) ≡ a
    parity a b x = omega arith

-- Every byte is below 256.
abbrev pub AreBytes : Bytes → Type 0
AreBytes s = All (λ c. c < 256) s

pub xor_bytes_cancel :
    (xs ys : Bytes) → AreBytes xs → length xs ≡ length ys → xor_bytes (xor_bytes xs ys) ys ≡ xs
unfolding xor_bytes
xor_bytes_cancel [] ys h e = refl
xor_bytes_cancel (x ∷ xs) [] h e = absurd (omega arith)
xor_bytes_cancel (x ∷ xs) (y ∷ ys) h e =
    ap₂ ◌∷◌ (xor_cancel 8 x y h.0) (xor_bytes_cancel xs ys h.1 (omega arith))
