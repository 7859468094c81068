-- ===== src/Examples/Streams.antt =====
-- The theorems about streams of data, on a document of three bytes, and a run that fails late.
use v_j_bc.Base.{
  ◌==◌, ◌≡◌, refl, true, false, if◌then◌else◌, Option, none, some, List, [], ◌∷◌, ◌++◌, Bytes,
  arith, length, new_array,
}
use v_j_bc.Jni.{Resource, World, Finish, returned, undefined_behaviour}
use v_j_bc.Jni.Completes.{Succeeds, Yields, Leaves}
use v_j_bc.Suite.{Suite}
use v_j_bc.Streams.Phases.{Unreleased}
use v_j_bc.Streams.Encrypt.{encrypt_generic, encrypt_certificate, encrypt_data}
use v_j_bc.Streams.Encrypt.Phases.{Refused, IsPiece, checked, unchecked}
use v_j_bc.Streams.Encrypt.Complete.{encrypt_generic-Leaves, encrypt_data-Leaves}
use v_j_bc.Streams.Decrypt.{decrypt_generic, decrypt_certificate, decrypt_data}
use v_j_bc.Streams.Decrypt.Bodies.{IsRead}
use v_j_bc.Streams.Decrypt.Complete.{decrypt_data-Leaves}
use v_j_bc.Streams.RoundTrip.{join, decrypt_data-encrypt_data, encrypt_data-append}
use v_j_bc.Streams.Whole.{decrypt_generic-encrypt_generic, decrypt_certificate-encrypt_certificate}
use v_j_bc.Examples.Toy.{toy, toy-IsSuite, start}

abbrev key : Bytes
key = new_array 32

abbrev iv : Bytes
iv = new_array 8

abbrev input : Bytes
input = 1 ∷ 2 ∷ 3 ∷ []

-- The suite whose call number 8, the encryption proper, fails.
abbrev late : Suite
late = record toy { calls = λ n. if n == 8 then false else true }

abbrev held_after : Finish (Option Bytes) → List Resource
held_after (returned w) = w.held
held_after undefined_behaviour = []

decrypt_data-encrypt_data_example :
    Yields
      (λ r.
        (v : World (Option Bytes))
        → Succeeds (some input) v (decrypt_data toy (some true) (some key) (some iv) r 5 v))
      (start none)
      (encrypt_data toy (some true) (some key) (some iv) (some input) 5 (start none))
decrypt_data-encrypt_data_example =
    decrypt_data-encrypt_data toy toy-IsSuite (λ n. refl) key iv (omega arith) (omega arith) input 5
      (start none)

encrypt_data-append_example :
    Yields
      (λ r.
        (v : World (Option Bytes))
        → Yields
            (λ s.
              (u : World (Option Bytes))
              → Succeeds
                  (join r s)
                  u
                  (encrypt_data toy (some true) (some key) (some iv) (some (input ++ input)) 0 u))
            v
            (encrypt_data toy (some true) (some key) (some iv) (some input) 3 v))
      (start none)
      (encrypt_data toy (some true) (some key) (some iv) (some input) 0 (start none))
encrypt_data-append_example =
    encrypt_data-append toy toy-IsSuite (λ n. refl) key iv (omega arith) (omega arith) input input
      (omega arith) (start none)

decrypt_certificate-encrypt_certificate_example :
    Yields
      (λ r.
        (v : World (Option Bytes))
        → Succeeds (some input) v (decrypt_certificate toy (some true) (some key) r v))
      (start none)
      (encrypt_certificate toy (some true) (some key) (some iv) (some input) (start none))
decrypt_certificate-encrypt_certificate_example =
    decrypt_certificate-encrypt_certificate toy toy-IsSuite (λ n. refl) key iv (omega arith)
      (omega arith) input (start none)

decrypt_generic-encrypt_generic_example :
    Yields
      (λ r.
        (v : World (Option Bytes))
        → Succeeds (some input) v (decrypt_generic toy (some true) (some key) r v))
      (start none)
      (encrypt_generic toy (some true) (some key) (some iv) (some input) (start none))
decrypt_generic-encrypt_generic_example =
    decrypt_generic-encrypt_generic toy toy-IsSuite (λ n. refl) key iv (omega arith) refl input
      (start none)

encrypt_generic-Leaves_example :
    Leaves [] Unreleased
      (λ r. r ≡ none)
      (Refused late true (checked late) (some key) (some iv) (some input))
      (IsPiece late true (checked late) length 0 (some key) (some iv) (some input))
      (start none)
      (encrypt_generic late (some true) (some key) (some iv) (some input) (start none))
encrypt_generic-Leaves_example =
    encrypt_generic-Leaves late true (some key) (some iv) (some input) (omega arith) (start none)

encrypt_data-Leaves_example :
    Leaves [] Unreleased
      (λ r. r ≡ none)
      (Refused late true unchecked (some key) (some iv) (some input))
      (IsPiece late true unchecked (λ _. 32) 5 (some key) (some iv) (some input))
      (start none)
      (encrypt_data late (some true) (some key) (some iv) (some input) 5 (start none))
encrypt_data-Leaves_example =
    encrypt_data-Leaves late true (some key) (some iv) (some input) 5 (omega arith) (omega arith)
      (start none)

decrypt_data-Leaves_example :
    Leaves [] Unreleased
      (λ r. r ≡ none)
      (Refused late true unchecked (some key) (some iv) (some input))
      (IsRead late true 5 (some key) (some iv) (some input))
      (start none)
      (decrypt_data late (some true) (some key) (some iv) (some input) 5 (start none))
decrypt_data-Leaves_example =
    decrypt_data-Leaves late true (some key) (some iv) (some input) 5 (omega arith) (omega arith)
      (omega arith) (start none)
