-- ===== src/Verify/RoundTrip.antt =====
-- The verification of what the signing returned, and of what it did not.
use v_j_bc.Base.{◌≡◌, sym, subst, Bool, true, Option, some, Bytes, arith, length}
use v_j_bc.Jni.{ExceptionClass, World}
use v_j_bc.Jni.Point.{AllSucceed}
use v_j_bc.Jni.Completes.{Succeeds, Ends-Yields, Completes-Succeeds}
use v_j_bc.Suite.{Suite}
use v_j_bc.Signing.{sign}
use v_j_bc.Signing.Complete as Signed
use v_j_bc.Verify.{verify_signature}
use v_j_bc.Verify.Complete.{verify_signature-Ends}
use v_j_bc.Verify.Phases.{
  Refusal, not_initialized, bad_key_size, IsAnswer, verified, bad_size, bad_signature, failed,
  Answers, answers,
}

module _ (suite : Suite) (all : AllSucceed suite.calls) (public message : Bytes)
    (size : length public ≡ suite.verifying_key_size) where
  not-Refused :
      (signed : Bytes) (c : ExceptionClass)
      → Refusal suite true (some public) (some (some signed)) (some (some message)) c
      → ⊥
  not-Refused signed c (not_initialized h) = cc
  not-Refused signed c (bad_key_size h) = ground (arith, size)

  module _ (signed : Bytes) (signed_size : length signed ≡ suite.signature_size) where
    only_answer :
        (r : Bool) → IsAnswer suite public signed message r → r ≡ suite.verify public message signed
    only_answer _ (verified k s h) = sym h
    only_answer _ (bad_size h) = ground (arith, signed_size)
    only_answer _ (bad_signature h) = sym h
    only_answer _ (failed n h) = cc (all n)

    answer_of :
        (r : Bool)
        → Answers suite true (some public) (some (some signed)) (some (some message)) r
        → r ≡ suite.verify public message signed
    answer_of r (answers on h) = only_answer r h

    -- Where no fallible call fails and the library is initialized, for a key and a signature of the
    -- sizes of the scheme: the verification returns the answer of the scheme, throws nothing,
    -- and gives back all that it acquired.
    verify_signature-Succeeds :
        (v : World Bool)
        → Succeeds (suite.verify public message signed) v (
            verify_signature suite
              (some true)
              (some public)
              (some (some signed))
              (some (some message))
              v)
    verify_signature-Succeeds v =
        Ends-Yields
          (verify_signature-Ends suite true (some public) (some (some signed)) (some (some message))
            v)
          all (not-Refused signed) answer_of

  module _ (private : Bytes) (private_size : length private ≡ suite.signing_key_size)
      (pair : suite.verify public message (suite.signature private message) ≡ true)
      (signed_size : length (suite.signature private message) ≡ suite.signature_size) where
    signs :
        (c : ExceptionClass) → Signed.Refusal suite true (some private) (some (some message)) c → ⊥
    signs c (Signed.not_initialized h) = cc
    signs c (Signed.bad_key_size h) = ground (arith, private_size)

    -- Where no fallible call fails and the library is initialized, for keys of the sizes of the
    -- scheme whose signature of the message has its size and is accepted by the scheme: the
    -- signing returns that signature, and the verification of it answers JNI_TRUE. Neither throws,
    -- and both give back all that they acquired.
    pub verify_signature-sign :
        (w : World (Option Bytes)) (v : World Bool)
        → Succeeds
            (some (suite.signature private message))
            w
            (sign suite (some true) (some private) (some (some message)) w)
          × Succeeds true v (
              verify_signature suite
                (some true)
                (some public)
                (some (some (suite.signature private message)))
                (some (some message))
                v)
    verify_signature-sign w v = (
      Completes-Succeeds (Signed.sign-Completes suite true (some private) (some (some message)) w)
          all signs,
      subst
          (λ r. Succeeds r v (
            verify_signature suite (some true) (some public)
              (some (some (suite.signature private message))) (some (some message)) v))
          pair (verify_signature-Succeeds (suite.signature private message) signed_size v),
    )
