-- ===== src/Examples/SimpleCipher.antt =====
-- The theorems about the simple stream cipher, on a message of three bytes.
use v_j_bc.Base.{
  ◌≡◌, refl, true, false, Option, none, some, [], ◌∷◌, Bytes, arith, new_array, memcmp_eq,
}
use v_j_bc.Jni.{World, message_authentication}
use v_j_bc.Jni.Completes.{Succeeds, Ends, Yields, Throws}
use v_j_bc.SimpleCipher.Encrypt.{encrypt}
use v_j_bc.SimpleCipher.Encrypt.Complete.{encrypt-Ends}
use v_j_bc.SimpleCipher.Encrypt.Phases as Encrypting
use v_j_bc.SimpleCipher.Decrypt.{decrypt}
use v_j_bc.SimpleCipher.Decrypt.Complete.{decrypt-Ends}
use v_j_bc.SimpleCipher.Decrypt.Phases as Decrypting
use v_j_bc.SimpleCipher.RoundTrip.{decrypt-encrypt, decrypt-forged}
use v_j_bc.Examples.Toy.{toy, toy-IsSuite, start}

abbrev key : Bytes
key = new_array 32

abbrev input : Bytes
input = 1 ∷ 2 ∷ 3 ∷ []

-- A message with a code that is not its own.
abbrev forgery : Bytes
forgery = 1 ∷ new_array 130

forgery-not_genuine : Decrypting.genuine toy key forgery ≡ false
unfolding memcmp_eq
forgery-not_genuine = refl

decrypt-encrypt_example :
    Yields
      (λ r.
        (v : World (Option Bytes))
        → Succeeds (some input) v (decrypt toy (some true) (some (some key)) r v))
      (start none)
      (encrypt toy (some true) (some (some key)) (some input) (start none))
decrypt-encrypt_example =
    decrypt-encrypt toy toy-IsSuite (λ n. refl) key (omega arith) input (start none)

decrypt-forged_example :
    Throws message_authentication
      (λ r. r ≡ none)
      (start none)
      (decrypt toy (some true) (some (some key)) (some forgery) (start none))
decrypt-forged_example =
    decrypt-forged toy toy-IsSuite (λ n. refl) key (omega arith) forgery forgery-not_genuine
      (start none)

encrypt-Ends_example :
    Ends
      (λ r. r ≡ none)
      (Encrypting.Refused toy true (some (some key)) (some input))
      (Encrypting.IsMessage toy true (some (some key)) (some input))
      (start none)
      (encrypt toy (some true) (some (some key)) (some input) (start none))
encrypt-Ends_example =
    encrypt-Ends toy toy-IsSuite true (some (some key)) (some input) (omega arith) (start none)

decrypt-Ends_example :
    Ends
      (λ r. r ≡ none)
      (Decrypting.Refused toy true (some (some key)) (some forgery))
      (Decrypting.IsOpened toy true (some (some key)) (some forgery))
      (start none)
      (decrypt toy (some true) (some (some key)) (some forgery) (start none))
decrypt-Ends_example =
    decrypt-Ends toy toy-IsSuite true (some (some key)) (some forgery) (omega arith) (start none)
