-- ===== src/Scram/Exchange/Limited.antt =====
-- The exchange of internal/sasl/scram/scram.go derives a key from bounded values only.
use svcdoctor.Base.{ℕ, ◌≤◌, some, length, ◌≡◌, refl, inl, inr}
use svcdoctor.Base.Bytes.{Bytes}
use svcdoctor.Base.Result.{Result-cases}
use svcdoctor.Scram.Parse.{parse_server_first}
use svcdoctor.Scram.Parse.Accepted.{parse_server_first-Acceptable}
use svcdoctor.Scram.Exchange.{ScramState, Derive, derived, continue}

-- The two derivations agree where the salt has at most 1024 bytes and the count is from 1 to 1048576.
abbrev pub AgreeInBounds : Derive → Derive → Type 0
AgreeInBounds d e =
    (salt : Bytes) (n : ℕ) → length salt ≤ 1024 → 1 ≤ n → n ≤ 1048576 → d salt n ≡ e salt n

derived-Limited :
    (client_nonce raw : Bytes) (d e : Derive)
    → AgreeInBounds d e
    → derived client_nonce raw d ≡ derived client_nonce raw e
unfolding derived
derived-Limited client_nonce raw d e agree =
    elim (Result-cases (parse_server_first raw client_nonce)) [
      | inr (error, bad) ↦ rw bad refl
      | inl (first, parsed) ↦
          let a = parse_server_first-Acceptable raw client_nonce first parsed in
          rw
            (
              parsed,
              agree first.salt first.iterations a.salt_short a.count_positive a.count_bounded,
            )
            refl
    ]

-- Whatever the server sends, the outcome depends on the derivation only where the salt has at most
-- 1024 bytes and the count of iterations is from 1 to 1048576: no message makes the client derive a
-- key outside these bounds.
pub continue-Limited :
    (hmac : Bytes → Bytes → Bytes) (sha256 : Bytes → Bytes) (s : ScramState) (raw : Bytes)
    (d e : Derive)
    → AgreeInBounds d e
    → continue hmac sha256 s raw (some d) ≡ continue hmac sha256 s raw (some e)
unfolding continue
continue-Limited hmac sha256 s raw d e agree =
    rw (derived-Limited s.client_nonce raw d e agree) refl
