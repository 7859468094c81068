-- ===== src/Verify/Complete.antt =====
-- What the verification returns, in every case.
use v_j_bc.Base.{◌≡◌, refl, Bool, true, false, Option, none, some, Bytes}
use v_j_bc.Jni.{World, ◌>>=◌}
use v_j_bc.Jni.Rules.{Steps-bind, Steps-mono, Steps-jump, step_rules}
use v_j_bc.Jni.Completes.{Ends, run-Ends}
use v_j_bc.Suite.{Suite}
use v_j_bc.Verify.{
  done, cleanup_signature_array, read_verifying_key, read_signed_message, read_signature,
  check_signature, verify_body, verify_signature,
}
use v_j_bc.Verify.Phases.{
  Refused, Answers, answers, Phase, read_verifying_key-Steps, no_key_bytes-Steps,
  read_signed_message-Steps, no_message_bytes-Steps, read_signature-Steps, no_signature_bytes-Steps,
  check_signature-Steps, reasons,
}

module _ (suite : Suite) where
  module _ (b : Bool) where
    rest-Steps :
        (key : Bytes) (signature message : Option Bytes)
        → b ≡ true
        → Phase suite b
            (some key)
            (some signature)
            (some message)
            done
            cleanup_signature_array
            (Answers suite b (some key) (some signature) (some message))
            (read_verifying_key suite (some key) >>= λ public.
              read_signed_message suite message >>= λ text.
              read_signature suite signature >>= check_signature suite public text)
    rest-Steps key signature none on =
        Steps-bind _ _ (read_verifying_key-Steps suite b key (some signature) (some none))
          λ k ek. Steps-jump _ _ (no_message_bytes-Steps suite b (some key) (some signature))
    rest-Steps key none (some message) on =
        Steps-bind _ _ (read_verifying_key-Steps suite b key (some none) (some (some message)))
          λ k ek.
            Steps-bind _ _ (read_signed_message-Steps suite b (some key) (some none) message)
              λ m em.
                Steps-jump _ _ (no_signature_bytes-Steps suite b (some key) (some (some message)))
    rest-Steps key (some signed) (some message) on =
        Steps-bind _ _
          (read_verifying_key-Steps suite b key (some (some signed)) (some (some message)))
          λ k ek.
            Steps-bind _ _
              (read_signed_message-Steps suite b (some key) (some (some signed)) message)
              λ m em.
                Steps-bind _ _
                  (read_signature-Steps suite b (some key) signed (some (some message)))
                  λ s es.
                    rw (ek.1, em, es)
                      (Steps-mono (λ r h. answers on h) _
                        (check_signature-Steps suite b key signed message ek.0))

    body-Steps :
        (key : Option Bytes) (signature message : Option (Option Bytes))
        → Phase suite b key signature message done cleanup_signature_array
            (Answers suite b key signature message)
            (verify_body suite (some b) key signature message)
    unfolding verify_body
    body-Steps key none message = search (step_rules, reasons) depth 30
    body-Steps key (some signature) none = search (step_rules, reasons) depth 30
    body-Steps none (some signature) (some message) =
        search (step_rules, reasons, Steps-jump, no_key_bytes-Steps suite b) depth 30
    body-Steps (some key) (some signature) (some message) =
        search (step_rules, reasons, rest-Steps key signature message) depth 30

    -- For every argument, with an instance that is not null, and whichever calls fail, the
    -- verification ends with defined behaviour and has given back all that it acquired. It returns
    -- an answer with nothing thrown, and then the library is initialized and no argument is null;
    -- the answer is JNI_TRUE only if key and signature have the sizes of the scheme and the
    -- signature is that of the message, and JNI_FALSE only if the size of the signature is
    -- another, the signature is not that of the message, or a call fails. Or it throws an
    -- exception of a class for which there is a reason, and returns JNI_FALSE.
    pub verify_signature-Ends :
        (key : Option Bytes) (signature message : Option (Option Bytes)) (w : World Bool)
        → Ends
            (λ r. r ≡ false)
            (Refused suite b key signature message)
            (Answers suite b key signature message)
            w
            (verify_signature suite (some b) key signature message w)
    unfolding verify_signature
    verify_signature-Ends key signature message w =
        run-Ends cleanup_signature_array refl w (λ a. a) (λ a h. h) _
          (body-Steps key signature message)
