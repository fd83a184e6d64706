-- ===== src/Scram/Parse/Accepted.antt =====
-- What a first message of a server is that internal/sasl/scram/parse.go accepts.
use svcdoctor.Base.{
  ℕ, zero, suc, ◌≤◌, ◌<◌, true, false, List, [], ◌∷◌, ◌++◌, Option, none, some, length, length-drop,
  take, drop, ltb, ◌≡◌, refl, sym, ap, subst, ◌∙◌, inl, inr, arith, Option-cases,
}
use svcdoctor.Base.Base64.{decode_base64}
use svcdoctor.Base.Bytes.{Bytes, eqb, eqb_iff}
use svcdoctor.Base.Result.{Result, ok, ◌>>◌, ◌>>=◌, reject-eq-ok, Result-cases}
use svcdoctor.Scram.{ScramError, message_too_large}
use svcdoctor.Scram.Username.{printable_rfc}
use svcdoctor.Scram.Parse.{
  ServerFirst, Seen, required, decoded, check_nonce, read_salt, all_digits, decimal,
  parse_iterations, attributes, visit_first, parse_server_first,
}
use svcdoctor.Scram.Parse.Attributes.{Attribute, Written, values_of, as_list, attributes-Kept}

pub record Acceptable (raw client_nonce : Bytes) (first : ServerFirst) : Type 0 where
  pub raw_short : length raw ≤ 8192
  pub attrs : List Attribute
  pub written : Written raw attrs
  pub few : length attrs ≤ 32
  pub salt_text : Bytes
  pub count_text : Bytes
  pub one_nonce : values_of b'r' attrs ≡ first.nonce ∷ []
  pub one_salt : values_of b's' attrs ≡ salt_text ∷ []
  pub one_count : values_of b'i' attrs ≡ count_text ∷ []
  pub no_extension : values_of b'm' attrs ≡ []
  pub nonce_printable : printable_rfc first.nonce ≡ true
  pub nonce_short : length first.nonce ≤ 1024
  pub extra : Bytes
  pub nonce_extends : first.nonce ≡ client_nonce ++ extra
  pub nonce_grows : 0 < length extra
  pub salt_decoded : decode_base64 salt_text ≡ some first.salt
  pub salt_text_short : length salt_text ≤ 1368
  pub salt_short : length first.salt ≤ 1024
  pub digits : all_digits count_text ≡ true
  pub count_is : decimal 0 count_text ≡ first.iterations
  pub count_positive : 1 ≤ first.iterations
  pub count_bounded : first.iterations ≤ 1048576

take-drop : (n : ℕ) (s : Bytes) → s ≡ take n s ++ drop n s
take-drop zero s = refl
take-drop (suc n) [] = refl
take-drop (suc n) (c ∷ s) = ap (◌∷◌ c) (take-drop n s)

required-eq-ok : (o : Option Bytes) (v : Bytes) → required o ≡ ok v → as_list o ≡ v ∷ []
required-eq-ok o v h = ground arith

decoded-eq-ok : (o : Option Bytes) (v : Bytes) → decoded o ≡ ok v → o ≡ some v
decoded-eq-ok o v h = ground arith

read_salt-eq-ok :
    (text salt : Bytes)
    → read_salt text ≡ ok salt
    → (decode_base64 text ≡ some salt) × (length text ≤ 1368) × (length salt ≤ 1024)
read_salt-eq-ok text salt h = elim (Option-cases (decode_base64 text)) [
  | inl missing ↦ absurd (ground (arith, h, missing))
  | inr (value, found) ↦
      let same : value ≡ salt = ground (arith, h, found) in
      (found ∙ ap some same, ground (arith, h, found), ground (arith, h, found, same))
]

parse_iterations-eq-ok :
    (v : Bytes) (n : ℕ)
    → parse_iterations v ≡ ok n
    → (all_digits v ≡ true) × (decimal 0 v ≡ n) × (1 ≤ n) × (n ≤ 1048576)
unfolding parse_iterations
parse_iterations-eq-ok v n h = ground (arith, h)

check_nonce-eq-ok :
    (nonce client_nonce : Bytes)
    → check_nonce nonce client_nonce ≡ ok tt
    → (printable_rfc nonce ≡ true)
      × (length nonce ≤ 1024)
      × (nonce ≡ client_nonce ++ drop (length client_nonce) nonce)
      × (0 < length (drop (length client_nonce) nonce))
check_nonce-eq-ok nonce client_nonce h =
    let front : eqb (take (length client_nonce) nonce) client_nonce ≡ true = ground (arith, h) in
    let longer : length client_nonce < length nonce = ground (arith, h) in
    let size = length-drop (length client_nonce) nonce in
    (
      ground (arith, h),
      ground (arith, h),
      take-drop (length client_nonce) nonce
          ∙ ap (λ x. x ++ drop (length client_nonce) nonce)
              ((eqb_iff (take (length client_nonce) nonce) client_nonce).0 front),
      omega (arith, size, longer),
    )

-- The checks after the walk.
abbrev after_walk : Seen → Bytes → Result ScramError ServerFirst
after_walk seen client_nonce = do
  nonce ← required seen.r
  salt_text ← required seen.s
  iter_str ← required seen.i
  check_nonce nonce client_nonce
  salt ← read_salt salt_text
  iterations ← parse_iterations iter_str
  ok (record { nonce = nonce; salt = salt; iterations = iterations })

checked :
    (nonce salt_text count_text client_nonce : Bytes) (first : ServerFirst)
    → after_walk (record { r = some nonce; s = some salt_text; i = some count_text }) client_nonce
      ≡ ok first
    → (check_nonce nonce client_nonce ≡ ok tt)
      × (read_salt salt_text ≡ ok first.salt)
      × (parse_iterations count_text ≡ ok first.iterations)
      × (nonce ≡ first.nonce)
checked nonce salt_text count_text client_nonce first h =
    elim (Result-cases (check_nonce nonce client_nonce)) [
      | inr (e, bad) ↦ absurd (let moved = rw bad at h in cc)
      | inl (u, fine) ↦ elim (Result-cases (read_salt salt_text)) [
        | inr (e, bad) ↦ absurd (let moved = rw (fine, bad) at h in cc)
        | inl (salt, read) ↦ elim (Result-cases (parse_iterations count_text)) [
          | inr (e, bad) ↦ absurd (let moved = rw (fine, read, bad) at h in cc)
          | inl (n, count) ↦
              let same : ok (record { nonce = nonce; salt = salt; iterations = n }) ≡ ok first =
                rw (fine, read, count) at h in
              (fine, ground (arith, read, same), ground (arith, count, same), ground (arith, same))
        ]
      ]
    ]

at_most : (n : ℕ) → ltb 8192 n ≡ false → n ≤ 8192
at_most n h = ground (arith, h)

module _ (raw client_nonce : Bytes) (first : ServerFirst) where
  -- Every field of a first message that is accepted is bounded and was checked: the message is a list
  -- of at most 32 attributes, with one nonce, one salt and one count of iterations among them and no
  -- mandatory extension; the nonce is printable and strictly extends the client's, the salt is the
  -- decoded text, and the count is from 1 to 1048576.
  pub parse_server_first-Acceptable :
      parse_server_first raw client_nonce ≡ ok first → Acceptable raw client_nonce first
  unfolding parse_server_first
  parse_server_first-Acceptable h =
      let start : Seen = record { r = none; s = none; i = none } in
      elim (Result-cases (attributes visit_first 32 raw start)) [
        | inr (e, walked) ↦ absurd (ground (arith, h, walked))
        | inl (seen, walked) ↦
            let (attrs, written, few, kept) = attributes-Kept 32 raw start seen walked in
            let (bound, later) =
              reject-eq-ok (ltb 8192 (length raw)) message_too_large (after_walk seen client_nonce)
                {r = first} (rw walked at h) in
            elim (Option-cases seen.r) [
              | inl missing ↦ absurd (let moved = rw missing at later in cc)
              | inr (nonce, r) ↦ elim (Option-cases seen.s) [
                | inl missing ↦ absurd (let moved = rw (r, missing) at later in cc)
                | inr (salt_text, s) ↦ elim (Option-cases seen.i) [
                  | inl missing ↦ absurd (let moved = rw (r, s, missing) at later in cc)
                  | inr (count_text, i) ↦
                      let (nonce_ok, salt_ok, count_ok, same) =
                        checked nonce salt_text count_text client_nonce first
                          (rw (r, s, i) at later) in
                      let (printable, small, extends, grows) =
                        check_nonce-eq-ok first.nonce client_nonce
                          (subst (λ n. check_nonce n client_nonce ≡ ok tt) same nonce_ok) in
                      let (salt_is, text_small, salt_small) =
                        read_salt-eq-ok salt_text first.salt salt_ok in
                      let (digits_ok, value, positive, bounded) =
                        parse_iterations-eq-ok count_text first.iterations count_ok in
                      record {
                        raw_short = at_most (length raw) bound;
                        attrs = attrs;
                        written = written;
                        few = few;
                        salt_text = salt_text;
                        count_text = count_text;
                        one_nonce = sym kept.r ∙ ap as_list r ∙ ap (λ n. n ∷ []) same;
                        one_salt = sym kept.s ∙ ap as_list s;
                        one_count = sym kept.i ∙ ap as_list i;
                        no_extension = kept.m;
                        nonce_printable = printable;
                        nonce_short = small;
                        extra = drop (length client_nonce) first.nonce;
                        nonce_extends = extends;
                        nonce_grows = grows;
                        salt_decoded = salt_is;
                        salt_text_short = text_small;
                        salt_short = salt_small;
                        digits = digits_ok;
                        count_is = value;
                        count_positive = positive;
                        count_bounded = bounded;
                      }
                ]
              ]
            ]
      ]
