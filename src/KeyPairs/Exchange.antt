-- ===== src/KeyPairs/Exchange.antt =====
-- Generated key pairs in use.
use v_j_bc.Base.{
  ℕ, ◌≡◌, refl, Bool, sym, ◌∙◌, true, Option, some, Bytes, arith, length, take, take_all,
}
use v_j_bc.Jni.{ExceptionClass, World}
use v_j_bc.Jni.Point.{AllSucceed}
use v_j_bc.Jni.Completes.{Yields, YieldsKeeping, Succeeds, Ends-Yields}
use v_j_bc.Suite.{Suite, IsSuite}
use v_j_bc.Documents.Generate.Complete.{Shared}
use v_j_bc.Documents.RoundTrip.{unwrap_key-wrap_key}
use v_j_bc.Signing.{sign}
use v_j_bc.Verify.{verify_signature}
use v_j_bc.Verify.RoundTrip.{verify_signature-sign}
use v_j_bc.KeyPairs.Encryption.{KeyPair, generate_encryption}
use v_j_bc.KeyPairs.Encryption.Complete.{
  Refusal, not_initialized, IsPair, is_pair, generate_encryption-Ends,
}
use v_j_bc.KeyPairs.Signing.{generate_signing}
use v_j_bc.KeyPairs.Signing.Complete as Made
use v_j_bc.KeyPairs.Signing.Complete.{generate_signing-Leaves}

module _ (suite : Suite) where
  -- What the owner of the pair `p` wraps for the owner of the pair `q`, in any state, the latter
  -- unwraps to the same key.
  pub data Exchange (key : Bytes) : KeyPair → KeyPair → Type 0 where
    exchange :
        {p q : Bytes × Bytes}
        → Shared suite p.0 p.1 q.0 q.1 (some key)
        → Exchange key (some p) (some q)

  -- What the private key of the pair signs, in any state, is verified with its public key.
  pub data Signs (message : Bytes) : KeyPair → Type 0 where
    signs :
        {p : Bytes × Bytes}
        → ((w : World (Option Bytes)) (v : World Bool)
            → Succeeds
                (some (suite.signature p.0 message))
                w
                (sign suite (some true) (some p.0) (some (some message)) w)
              × Succeeds true v (
                  verify_signature suite
                    (some true)
                    (some p.1)
                    (some (some (suite.signature p.0 message)))
                    (some (some message))
                    v))
        → Signs message (some p)

  module _ (laws : IsSuite suite) (all : AllSucceed suite.calls) where
    generates : (c : ExceptionClass) → Refusal true c → ⊥
    generates c (not_initialized h) = cc

    generates_signing : (c : ExceptionClass) → Made.Refusal true c → ⊥
    generates_signing c (Made.not_initialized h) = cc

    private_long : (n : ℕ) → length (suite.key_pair n).0 ≡ 32
    private_long n = laws.length-private n ∙ laws.private_key_size_lem

    public_long : (n : ℕ) → length (suite.key_pair n).1 ≡ 32
    public_long n = laws.length-public n ∙ laws.public_key_size_lem

    taken :
        (m n : ℕ)
        → suite.long_term_secret (take 32 (suite.key_pair m).0) (take 32 (suite.key_pair n).1)
          ≡ suite.long_term_secret (suite.key_pair m).0 (suite.key_pair n).1
    taken m n =
        rw
          (
            take_all 32 (suite.key_pair m).0 (private_long m),
            take_all 32 (suite.key_pair n).1 (public_long n),
          )
          refl

    exchanges :
        (key : Bytes)
        → length key ≡ 32
        → (p q : KeyPair) → IsPair suite true p
        → IsPair suite true q
        → Exchange key p q
    exchanges key size _ _ (is_pair m _) (is_pair n _) = exchange (
        unwrap_key-wrap_key suite laws key size all (suite.key_pair m).0 (suite.key_pair m).1
          (suite.key_pair n).0 (suite.key_pair n).1 (omega (arith, private_long m))
          (omega (arith, public_long m)) (omega (arith, private_long n))
          (omega (arith, public_long n)) (taken n m ∙ laws.agreement n m ∙ sym (taken m n)))

    -- Where no fallible call fails and the library is initialized: two generations of encryption
    -- key pairs, each from any state, return pairs p and q, and a key of 32 bytes that is wrapped,
    -- in any state, with the private key of p and the public key of q is unwrapped, in any state,
    -- with the private key of q and the public key of p to the same key. Nothing throws, and
    -- everything that was acquired is given back.
    pub generate_encryption-Exchange :
        (key : Bytes)
        → length key ≡ 32
        → (w : World KeyPair)
        → Yields
            (λ p.
              (v : World KeyPair)
              → Yields (λ q. Exchange key p q) v (generate_encryption suite (some true) v))
            w
            (generate_encryption suite (some true) w)
    generate_encryption-Exchange key size w =
        Ends-Yields (generate_encryption-Ends suite true w) all generates λ p ip v.
          Ends-Yields (generate_encryption-Ends suite true v) all generates
            λ q iq. exchanges key size p q ip iq

    signed :
        AllSucceed suite.makes
        → (message : Bytes) (p : KeyPair) → Made.IsPair suite true p
        → Signs message p
    signed made message _ (Made.is_pair n _) = signs λ w v.
        verify_signature-sign suite all (suite.signing_pair n).1 message
          (laws.length-signing_public n) (suite.signing_pair n).0 (laws.length-signing_private n)
          (laws.verify-signature n message) (laws.length-signature (suite.signing_pair n).0 message)
          w v
    signed made message _ (Made.no_object n _ h) = cc (made n)

    -- Where no fallible call fails, those that make the returned object included, and the library is
    -- initialized: the generation of a signing key pair returns a pair; what its private key signs,
    -- in any state, is the signature of the message, and its verification with the public key, in
    -- any state, answers JNI_TRUE. Nothing throws, and everything that was acquired is given back,
    -- but for the local references to the objects of the two keys that the generation made.
    pub generate_signing-Signs :
        AllSucceed suite.makes
        → (message : Bytes) (w : World KeyPair)
        → YieldsKeeping Made.key_objects (Signs message) w (generate_signing suite (some true) w)
    generate_signing-Signs made message w =
        Ends-Yields (generate_signing-Leaves suite true w) all generates_signing
          (signed made message)
