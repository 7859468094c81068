-- ===== src/Examples/Signing.antt =====
-- The theorems about signatures, on a message of three bytes.
use v_j_bc.Base.{refl, false, memcmp_eq, ◌≡◌, true, none, some, [], ◌∷◌, Bytes, new_array}
use v_j_bc.Jni.Completes.{Succeeds, Ends, Completes}
use v_j_bc.Signing.{sign}
use v_j_bc.Signing.Complete.{Refused, Accepted, sign-Completes}
use v_j_bc.Verify.{verify_signature}
use v_j_bc.Verify.Complete.{verify_signature-Ends}
use v_j_bc.Verify.Phases as Verifying
use v_j_bc.Verify.RoundTrip.{verify_signature-sign}
use v_j_bc.Examples.Toy.{toy, start}

abbrev key : Bytes
key = 5 ∷ new_array 63

abbrev message : Bytes
message = 1 ∷ 2 ∷ 3 ∷ []

sign-Completes_example :
    Completes
      (λ r. r ≡ none)
      (Refused toy true (some key) (some (some message)))
      (Accepted toy true (some key) (some (some message)))
      (some (11 ∷ []))
      (start none)
      (sign toy (some true) (some key) (some (some message)) (start none))
sign-Completes_example = sign-Completes toy true (some key) (some (some message)) (start none)

-- The public key of `key`, and a signature that is not that of the message.
abbrev public : Bytes
public = 5 ∷ new_array 31

abbrev signed : Bytes
signed = 12 ∷ []

accepted_by_toy : toy.verify public message (11 ∷ []) ≡ true
unfolding memcmp_eq
accepted_by_toy = refl

verify_signature-sign_example :
    Succeeds
      (some (11 ∷ []))
      (start none)
      (sign toy (some true) (some key) (some (some message)) (start none))
    × Succeeds true (start false) (
        verify_signature toy
          (some true)
          (some public)
          (some (some (11 ∷ [])))
          (some (some message))
          (start false))
verify_signature-sign_example =
    verify_signature-sign toy (λ n. refl) public message refl key refl accepted_by_toy refl
      (start none) (start false)

verify_signature-Ends_example :
    Ends
      (λ r. r ≡ false)
      (Verifying.Refused toy true (some public) (some (some signed)) (some (some message)))
      (Verifying.Answers toy true (some public) (some (some signed)) (some (some message)))
      (start false)
      (verify_signature toy
        (some true)
        (some public)
        (some (some signed))
        (some (some message))
        (start false))
verify_signature-Ends_example =
    verify_signature-Ends toy true (some public) (some (some signed)) (some (some message))
      (start false)
