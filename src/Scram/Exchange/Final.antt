-- ===== src/Scram/Exchange/Final.antt =====
-- The last message of a server that internal/sasl/scram/scram.go takes.
use svcdoctor.Base.{
  ℕ, ◌≤◌, Bool, true, false, ◌||◌, [], ◌∷◌, ◌++◌, Option, none, some, length, ltb, ◌==◌, ◌≡◌, ◌↔◌,
  refl, sym, ap, ◌∙◌, inl, inr, arith, Option-cases,
}
use svcdoctor.Base.Base64.{decode_base64}
use svcdoctor.Base.Bytes.{Bytes, codes, eqb, eqb_iff}
use svcdoctor.Base.Result.{ok, Result-cases, reject-eq-ok, >>=-eq-ok}
use svcdoctor.Scram.{message_too_large}
use svcdoctor.Scram.Parse.{cut_comma, read_attribute}
use svcdoctor.Scram.Parse.Attributes.{has_comma, opened, cut_comma_lem, read_attribute-eq-ok}
use svcdoctor.Scram.Exchange.{continued, ScramState, final_attribute, verify_server_final, verify}

at_most : (n : ℕ) → ltb 8192 n ≡ false → n ≤ 8192
at_most n h = ground (arith, h)

-- The server's final message opens with `v=` and the signature in base64.
abbrev pub Signs : Bytes → Bytes → Type 0
Signs server_final signature =
    (length server_final ≤ 8192)
    × (text : Bytes) × (more : Option Bytes) × (server_final ≡ codes "v=" ++ (text ++ opened more))
    × (has_comma text ≡ false)
    × (decode_base64 text ≡ some signature)

cut_comma-opened :
    (s : Bytes) (more : Option Bytes)
    → has_comma s ≡ false
    → cut_comma (s ++ opened more) ≡ (s, more)
unfolding cut_comma
cut_comma-opened [] none h = refl
cut_comma-opened [] (some rest) h = refl
cut_comma-opened (c ∷ s) more h =
    let rest = cut_comma-opened s more (later (c == b',') (has_comma s) h) in
    let other : (c == b',') ≡ false = first (c == b',') (has_comma s) h in rw (other, rest) refl
  where
    first : (a b : Bool) → (a || b) ≡ false → a ≡ false
    first a b h = ground arith

    later : (a b : Bool) → (a || b) ≡ false → b ≡ false
    later a b h = ground arith

final_attribute_iff :
    (signature : Bytes) (key : ℕ) (value : Bytes)
    → (final_attribute signature key value ≡ ok tt)
      ↔ ((key ≡ b'v') × (decode_base64 value ≡ some signature))
final_attribute_iff signature key value = elim (Option-cases (decode_base64 value)) [
  | inl missing ↦ (λ h. absurd (ground (arith, h, missing)), λ (k, e). absurd (cc))
  | inr (given, found) ↦ (
    λ h.
        let same : eqb given signature ≡ true = ground (arith, h, found) in
        (ground (arith, h), found ∙ ap some ((eqb_iff given signature).0 same)),
    λ (k, e).
        let same = (eqb_iff given signature).1 (ground (arith, e, found)) in
        ground (arith, k, found, same),
  )
]

pub verify_server_final_iff :
    (server_final signature : Bytes)
    → (verify_server_final server_final signature ≡ ok tt) ↔ Signs server_final signature
unfolding verify_server_final
verify_server_final_iff server_final signature = (
  λ h.
      let (bound, h1) =
        reject-eq-ok (ltb 8192 (length server_final)) message_too_large _ {r = tt} h in
      let ((key, value), read, h2) =
        >>=-eq-ok (read_attribute (cut_comma server_final).0)
          (λ kv. final_attribute signature kv.0 kv.1) h1 in
      let (is_v, found) = (final_attribute_iff signature key value).0 h2 in
      let text = read_attribute-eq-ok (cut_comma server_final).0 key value read in
      let (split, clean) = cut_comma_lem server_final in
      let front = text ∙ ap (λ k. k ∷ b'=' ∷ value) is_v in
      (
        at_most (length server_final) bound,
        value,
        (cut_comma server_final).1,
        split ∙ ap (λ x. x ++ opened (cut_comma server_final).1) front,
        ap has_comma (sym front) ∙ clean,
        found,
      ),
  λ (short, text, more, is, clean, found).
      let front = cut_comma-opened (codes "v=" ++ text) more clean in
      let cut : cut_comma server_final ≡ (codes "v=" ++ text, more) = ap cut_comma is ∙ front in
      let bound : ltb 8192 (length server_final) ≡ false = ground (arith, short) in
      rw (bound, cut) ((final_attribute_iff signature b'v' text).1 (refl, found)),
)

pub verify-continued :
    (s : ScramState) (server_final : Bytes)
    → s.step ≡ continued
    → (verify s server_final).1 ≡ verify_server_final server_final s.expected_server_signature
unfolding verify
verify-continued s server_final step =
    elim (Result-cases (verify_server_final server_final s.expected_server_signature)) [
      | inl (u, e) ↦ rw (step, e) refl
      | inr (error, e) ↦ rw (step, e) refl
    ]
