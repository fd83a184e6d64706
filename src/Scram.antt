-- ===== src/Scram.antt =====
-- internal/sasl/scram: the client side of SCRAM-SHA-256, without plaintext.
pub mod Username
pub mod Parse
pub mod Exchange

-- errors.go; `no_entropy` is an error of the source of nonces.
pub data ScramError : Type 0 where
  malformed_message unexpected_response message_too_large username_unsupported : ScramError
  iterations_unsupported no_derivation derivation_failed derived_key_length : ScramError
  rejected server_signature_mismatch wrong_step no_entropy : ScramError
