-- ===== src/Scram/Username/Escaped.antt =====
-- The escaping of internal/sasl/scram/saslname.go is the one that a server undoes.
use svcdoctor.Base.{
  ℕ, ◌*◌, ◌≤◌, ◌<◌, Bool, true, false, not, ◌&&◌, [], ◌∷◌, ◌++◌, any, Option, none, some, length,
  ltb, ◌==◌, ◌≡◌, ◌⊎◌, refl, sym, ap, ◌∙◌, inl, inr, arith, Bool-cases, if◌then◌else◌,
}
use svcdoctor.Base.Bytes.{Bytes, codes}
use svcdoctor.Base.Result.{ok, err}
use svcdoctor.Scram.{username_unsupported}
use svcdoctor.Scram.Username.{printable_ascii, needs_escape, encoded_len, escape, encode_saslname}

abbrev with_byte : ℕ → Option Bytes → Option Bytes
with_byte c none = none
with_byte c (some s) = some (c ∷ s)

-- RFC 5802, section 5.1, for a server: `=` must be followed by `2C` or `3D`, and a comma ends the
-- attribute.
pub unescape : Bytes → Option Bytes
unescape [] = some []
unescape (c ∷ []) = if needs_escape c then none else some (c ∷ [])
unescape (c ∷ d ∷ []) =
    let rest = with_byte c (unescape (d ∷ [])) in if needs_escape c then none else rest
unescape (c ∷ d ∷ e ∷ s) =
    let plain = with_byte c (unescape (d ∷ e ∷ s)) in
    let comma = with_byte b',' (unescape s) in
    let equals = with_byte b'=' (unescape s) in
    if not (needs_escape c)
    then plain
    else if c == b'=' && d == b'2' && e == b'C'
    then comma
    else if c == b'=' && d == b'3' && e == b'D'
    then equals
    else none

unescape-plain :
    (c : ℕ) (s : Bytes) → needs_escape c ≡ false → unescape (c ∷ s) ≡ with_byte c (unescape s)
unfolding unescape
unescape-plain c [] h = rw h refl
unescape-plain c (d ∷ []) h = rw h refl
unescape-plain c (d ∷ e ∷ s) h = rw h refl

unescape-comma : (s : Bytes) → unescape (codes "=2C" ++ s) ≡ with_byte b',' (unescape s)
unfolding unescape
unescape-comma s = refl

unescape-equals : (s : Bytes) → unescape (codes "=3D" ++ s) ≡ with_byte b'=' (unescape s)
unfolding unescape
unescape-equals s = refl

unescape-escape : (s : Bytes) → unescape (escape s) ≡ some s
unfolding escape
unescape-escape [] = unfold unescape in refl
unescape-escape (c ∷ s) = elim (Bool-cases (c == b',')) [
  | inl comma ↦
      let e : c ≡ b',' = ground (arith, comma) in
      rw e (unescape-comma (escape s) ∙ ap (with_byte b',') (unescape-escape s))
  | inr other ↦ elim (Bool-cases (c == b'=')) [
    | inl equals ↦
        let e : c ≡ b'=' = ground (arith, equals) in
        rw e (unescape-equals (escape s) ∙ ap (with_byte b'=') (unescape-escape s))
    | inr plain ↦
        rw (other, plain)
          (unescape-plain c (escape s) (rw (other, plain) refl)
            ∙ ap (with_byte c) (unescape-escape s))
  ]
]

length-escape : (s : Bytes) → length (escape s) ≡ encoded_len s
unfolding escape encoded_len
length-escape [] = refl
length-escape (c ∷ s) = ground (arith, length-escape s)

encoded_len-bounds : (s : Bytes) → (length s ≤ encoded_len s) × (encoded_len s ≤ 3 * length s)
unfolding encoded_len
encoded_len-bounds [] = (omega arith, omega arith)
encoded_len-bounds (c ∷ s) = ground (arith, encoded_len-bounds s)

escape-unneeded : (s : Bytes) → encoded_len s ≡ length s → escape s ≡ s
unfolding escape encoded_len
escape-unneeded [] h = refl
escape-unneeded (c ∷ s) h = ground (arith, escape-unneeded s, encoded_len-bounds s)

no_comma : (s : Bytes) → any (λ c. c == b',') (escape s) ≡ false
unfolding escape
no_comma [] = refl
no_comma (c ∷ s) = ground (arith, no_comma s)

-- A username of at most 256 printable ASCII bytes is encoded in at most 768 bytes without a comma,
-- from which a server reads the same username; every other username is refused.
pub encode_saslname-unescape :
    (user : Bytes)
    → ((length user ≤ 256)
        × (printable_ascii user ≡ true)
        × (s : Bytes) × (encode_saslname user ≡ ok s)
        × (unescape s ≡ some user)
        × (any (λ c. c == b',') s ≡ false)
        × (length s ≤ 768))
      ⊎ (((256 < length user) ⊎ (printable_ascii user ≡ false))
          × (encode_saslname user ≡ err username_unsupported))
unfolding encode_saslname
encode_saslname-unescape user = elim (Bool-cases (ltb 256 (length user))) [
  | inl long ↦ inr (inl (ground (arith, long)), rw long refl)
  | inr short ↦ elim (Bool-cases (printable_ascii user)) [
    | inr other ↦ inr (inr other, rw (short, other) refl)
    | inl fine ↦
        let bounds = encoded_len-bounds user in
        let size = length-escape user in
        inl (
          ground (arith, short),
          fine,
          escape user,
          rw (short, fine)
              (ap ok (
                same (encoded_len user == length user)
                  (λ e. escape-unneeded user (ground (arith, e))))),
          unescape-escape user,
          no_comma user,
          ground (arith, short),
        )
  ]
]
  where
    same :
        (b : Bool)
        → (b ≡ true → escape user ≡ user)
        → (if b then user else escape user) ≡ escape user
    same true e = sym (e refl)
    same false e = refl
