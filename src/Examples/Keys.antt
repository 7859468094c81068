-- ===== src/Examples/Keys.antt =====
-- The theorems about keys, key pairs and authentication codes, on arrays of zeros.
use v_j_bc.Base.{◌≡◌, refl, true, false, none, some, List, [], ◌∷◌, Bytes, length, new_array}
use v_j_bc.Jni.{mac_context, World}
use v_j_bc.Jni.Point.{IsBlank}
use v_j_bc.Jni.Completes.{Leaves, YieldsKeeping, Yields, Ends, Completes}
use v_j_bc.Hmac.{hmac, digest_arr, digest}
use v_j_bc.Hmac.Phases.{objects}
use v_j_bc.Hmac.Phases as Digests
use v_j_bc.Hmac.Complete.{digest_arr-Leaves}
use v_j_bc.Hmac.Concat.{concat, digest_arr-digest}
use v_j_bc.KeyPairs.Encryption.{KeyPair, generate_encryption}
use v_j_bc.KeyPairs.Signing.{generate_signing}
use v_j_bc.KeyPairs.Encryption.Complete as Created
use v_j_bc.KeyPairs.Signing.Complete as Made
use v_j_bc.KeyPairs.Exchange.{Exchange, Signs, generate_encryption-Exchange, generate_signing-Signs}
use v_j_bc.Keys.{create_random, verify_key_size}
use v_j_bc.Keys.Complete as Keys
use v_j_bc.Keys.Complete.{BadKey, IsRandom, create_random-Ends, verify_key_size-Completes}
use v_j_bc.Keys.Password.{create_from_password}
use v_j_bc.Keys.Password.Complete as Password
use v_j_bc.Keys.Password.Complete.{IsDerived, create_from_password-Ends}
use v_j_bc.Examples.Toy.{toy, toy-IsSuite, start}

abbrev key : Bytes
key = new_array 32

abbrev messages : List Bytes
messages = (1 ∷ 2 ∷ []) ∷ [] ∷ (3 ∷ []) ∷ []

digest_arr-digest_example :
    YieldsKeeping
      (mac_context ∷ [])
      (λ r. r ≡ some (hmac toy false key (concat messages)))
      (start none)
      (digest_arr toy (some true) (some key) (some (objects messages)) false (start none))
    × YieldsKeeping
        (mac_context ∷ [])
        (λ r. r ≡ some (hmac toy false key (concat messages)))
        (start none)
        (digest toy (some true) (some key) (some (concat messages)) false (start none))
digest_arr-digest_example =
    digest_arr-digest toy toy-IsSuite (λ n. refl) false key messages (start none) (start none)

digest_arr-Leaves_example :
    Leaves
      (mac_context ∷ [])
      Digests.Undisposed
      IsBlank
      (Digests.Refused toy toy-IsSuite true (some key) (some messages))
      (λ r.
        (r ≡ some (hmac toy true key (Digests.digested [] messages)))
        × Digests.Accepted true (some key) (some messages))
      (start none)
      (digest_arr toy (some true) (some key) (some (objects messages)) true (start none))
digest_arr-Leaves_example =
    digest_arr-Leaves toy toy-IsSuite true true (some key) (some messages) (start none)

generate_encryption-Exchange_example :
    Yields
      (λ p.
        (v : World KeyPair)
        → Yields (λ q. Exchange toy key p q) v (generate_encryption toy (some true) v))
      (start none)
      (generate_encryption toy (some true) (start none))
generate_encryption-Exchange_example =
    generate_encryption-Exchange toy toy-IsSuite (λ n. refl) key refl (start none)

generate_signing-Signs_example :
    YieldsKeeping Made.key_objects
      (Signs toy (1 ∷ 2 ∷ []))
      (start none)
      (generate_signing toy (some true) (start none))
generate_signing-Signs_example =
    generate_signing-Signs toy toy-IsSuite (λ n. refl) (λ n. refl) (1 ∷ 2 ∷ []) (start none)

create_random-Ends_example :
    Ends
      (λ r. r ≡ none)
      (Keys.Refused toy true)
      (IsRandom toy true)
      (start none)
      (create_random toy (some true) (start none))
create_random-Ends_example = create_random-Ends toy true (start none)

abbrev short : Bytes
short = 1 ∷ 2 ∷ []

verify_key_size-Completes_example :
    Completes
      (λ _. Unit {0})
      (λ m n. BadKey toy true short)
      ((true ≡ true) × (length short ≡ 32))
      tt
      (start tt)
      (verify_key_size toy (some true) (some short) (start tt))
verify_key_size-Completes_example = verify_key_size-Completes toy true short (start tt)

create_from_password-Ends_example :
    Ends
      (λ r. r ≡ none)
      (Password.Refused toy true)
      (IsDerived toy true false (1 ∷ []) (2 ∷ []) 1000)
      (start none)
      (create_from_password toy (some true) (some (1 ∷ [])) (some (2 ∷ [])) 1000 false (start none))
create_from_password-Ends_example =
    create_from_password-Ends toy true false 1000 (1 ∷ []) (2 ∷ []) (start none)

generate_encryption-Ends_example :
    Ends
      (λ r. r ≡ none)
      (Created.Refused toy true)
      (Created.IsPair toy true)
      (start none)
      (generate_encryption toy (some true) (start none))
generate_encryption-Ends_example = Created.generate_encryption-Ends toy true (start none)

generate_signing-Leaves_example :
    Leaves Made.key_objects Made.Unreleased
      (λ r. r ≡ none)
      (Made.Refused toy true)
      (Made.IsPair toy true)
      (start none)
      (generate_signing toy (some true) (start none))
generate_signing-Leaves_example = Made.generate_signing-Leaves toy true (start none)
