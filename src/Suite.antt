-- ===== src/Suite.antt =====
-- What the native methods use of the crypto suite (vccrypt), the JVM and the C library, as
-- parameters: which calls succeed, and what a call that succeeds computes.
pub mod Stream
use v_j_bc.Base.{
  ℕ, suc, ◌+◌, ◌*◌, ◌%◌, ◌/◌, ◌^◌, ◌≡◌, ◌↔◌, Bool, true, Bytes, List, [], ◌∷◌, length,
}
use v_j_bc.Jni.{Schedule}

pub record Suite : Type 0 where
  -- whether the n-th fallible call succeeds
  pub calls : Schedule
  -- whether the n-th call succeeds, for the calls that make the object which a method returns with
  -- no test (`NewObject`, `fromByteArray`)
  pub makes : Schedule
  -- the contents of a buffer or an array that the n-th call allocates, by its size
  pub fresh : ℕ → ℕ → Bytes
  -- what the n-th call reads from the generator of random numbers, by its size
  pub random : ℕ → ℕ → Bytes
  -- the memory of a `uint64_t` in the byte order of the host
  pub host_u64 : ℕ → Bytes
  -- `crypto_suite.stream_cipher_opts.key_size` and `crypto_suite.mac_short_opts.mac_size`
  pub stream_key_size : ℕ
  pub mac_short_size : ℕ
  -- the size of a buffer for the other authentication code
  pub mac_size : ℕ
  -- the sizes of the buffers for the keys of a key agreement
  pub private_key_size : ℕ
  pub public_key_size : ℕ
  -- `crypto_suite.sign_opts.private_key_size`
  pub signing_key_size : ℕ
  -- `crypto_suite.sign_opts.public_key_size` and `crypto_suite.sign_opts.signature_size`
  pub verifying_key_size : ℕ
  pub signature_size : ℕ
  -- the stream cipher, by key, initialisation vector, position and byte
  pub encrypt_byte : Bytes → Bytes → ℕ → ℕ → ℕ
  pub decrypt_byte : Bytes → Bytes → ℕ → ℕ → ℕ
  -- the block cipher on blocks of 16 bytes, by key, initialisation vector and block
  pub block_encrypt : Bytes → Bytes → Bytes → Bytes
  pub block_decrypt : Bytes → Bytes → Bytes → Bytes
  -- the message authentication codes, by key and digested bytes
  pub mac_short : Bytes → Bytes → Bytes
  pub mac : Bytes → Bytes → Bytes
  -- `hmac_digest_length` of a key derivation, with SHA-512 or not, and the derived key, by password,
  -- salt and iterations
  pub hmac_digest_length : Bool → ℕ
  pub derive_key : Bool → Bytes → Bytes → ℕ → Bytes
  -- the private and the public key that the n-th call creates, for key agreement and for signatures
  pub key_pair : ℕ → Bytes × Bytes
  pub signing_pair : ℕ → Bytes × Bytes
  -- the secret that a private key and the public key of a peer agree on
  pub long_term_secret : Bytes → Bytes → Bytes
  -- the same for one session, with the nonces of the server and of the client
  pub short_term_secret : Bytes → Bytes → Bytes → Bytes → Bytes
  -- the signature of a message, by private key
  pub signature : Bytes → Bytes → Bytes
  -- whether a signature is that of a message, by public key
  pub verify : Bytes → Bytes → Bytes → Bool
  -- `crypto_memcmp (a, b, size) == 0`
  pub crypto_memcmp_eq : Bytes → Bytes → Bool

-- The documented behaviour that the native methods rely on.
pub record IsSuite (s : Suite) : Type 0 where
  pub length-fresh : (n size : ℕ) → length (s.fresh n size) ≡ size
  pub length-random : (n size : ℕ) → length (s.random n size) ≡ size
  pub stream_key_size_lem : s.stream_key_size ≡ 32
  pub mac_short_size_lem : s.mac_short_size ≡ 32
  pub mac_size_lem : s.mac_size ≡ 64
  pub length-derive_key :
      (sha512 : Bool) (password salt : Bytes) (iterations : ℕ)
      → length (s.derive_key sha512 password salt iterations) ≡ s.hmac_digest_length sha512
  pub length-private : (n : ℕ) → length (s.key_pair n).0 ≡ s.private_key_size
  pub length-public : (n : ℕ) → length (s.key_pair n).1 ≡ s.public_key_size
  pub agreement :
      (m n : ℕ)
      → s.long_term_secret (s.key_pair m).0 (s.key_pair n).1
        ≡ s.long_term_secret (s.key_pair n).0 (s.key_pair m).1
  pub length-signing_private : (n : ℕ) → length (s.signing_pair n).0 ≡ s.signing_key_size
  pub length-signing_public : (n : ℕ) → length (s.signing_pair n).1 ≡ s.verifying_key_size
  pub length-signature :
      (private text : Bytes) → length (s.signature private text) ≡ s.signature_size
  pub verify-signature :
      (n : ℕ) (text : Bytes)
      → s.verify (s.signing_pair n).1 text (s.signature (s.signing_pair n).0 text) ≡ true
  pub private_key_size_lem : s.private_key_size ≡ 32
  pub public_key_size_lem : s.public_key_size ≡ 32
  pub length-mac_short : (key text : Bytes) → length (s.mac_short key text) ≡ 32
  pub length-mac : (key text : Bytes) → length (s.mac key text) ≡ 64
  pub crypto_memcmp_eq_iff : (a b : Bytes) → (s.crypto_memcmp_eq a b ≡ true) ↔ (a ≡ b)
  pub decrypt_byte-encrypt_byte :
      (key iv : Bytes) (position byte : ℕ)
      → s.decrypt_byte key iv position (s.encrypt_byte key iv position byte) ≡ byte
  pub length-block_encrypt : (key iv block : Bytes) → length (s.block_encrypt key iv block) ≡ 16
  pub length-block_decrypt : (key iv block : Bytes) → length (s.block_decrypt key iv block) ≡ 16
  pub block_decrypt-block_encrypt :
      (key iv block : Bytes)
      → length block ≡ 16
      → s.block_decrypt key iv (s.block_encrypt key iv block) ≡ block
