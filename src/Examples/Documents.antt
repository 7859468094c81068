-- ===== src/Examples/Documents.antt =====
-- The theorems about the keys of documents, on a key of 32 bytes.
use v_j_bc.Base.{◌≡◌, refl, true, Option, none, some, ◌∷◌, Bytes, arith, new_array}
use v_j_bc.Jni.{World}
use v_j_bc.Jni.Completes.{Succeeds, Ends, Yields}
use v_j_bc.Documents.Wrap.{wrap_key}
use v_j_bc.Documents.Wrap.Complete.{wrap_key-Ends}
use v_j_bc.Documents.Wrap.Phases as Wrapping
use v_j_bc.Documents.Unwrap.{unwrap_key}
use v_j_bc.Documents.Unwrap.Complete.{unwrap_key-Ends}
use v_j_bc.Documents.Unwrap.Phases as Unwrapping
use v_j_bc.Documents.RoundTrip.{unwrap_key-wrap_key}
use v_j_bc.Documents.Generate.{generate_key}
use v_j_bc.Documents.Generate.Complete.{generate_key-Ends, generate_key-Shared}
use v_j_bc.Documents.Generate.Complete as Generating
use v_j_bc.Examples.Toy.{toy, toy-IsSuite, start}

-- The keys of one side and of the other.
abbrev mine : Bytes
mine = 1 ∷ new_array 31

abbrev theirs : Bytes
theirs = 2 ∷ new_array 31

abbrev key : Bytes
key = 3 ∷ 4 ∷ new_array 30

abbrev encrypted_key : Bytes
encrypted_key = new_array 48

unwrap_key-wrap_key_example :
    Yields
      (λ r.
        (v : World (Option Bytes))
        → Succeeds
            (some key)
            v
            (unwrap_key toy (some true) (some (some theirs)) (some (some mine)) r v))
      (start none)
      (wrap_key toy (some true) (some (some mine)) (some (some theirs)) (some key) (start none))
unwrap_key-wrap_key_example =
    unwrap_key-wrap_key toy toy-IsSuite key refl (λ n. refl) mine mine theirs theirs (omega arith)
      (omega arith) (omega arith) (omega arith) refl (start none)

wrap_key-Ends_example :
    Ends
      (λ r. r ≡ none)
      (Wrapping.Refused toy true (some (some mine)) (some (some theirs)) (some key))
      (Wrapping.IsWrapped toy true (some (some mine)) (some (some theirs)) (some key))
      (start none)
      (wrap_key toy (some true) (some (some mine)) (some (some theirs)) (some key) (start none))
wrap_key-Ends_example =
    wrap_key-Ends toy toy-IsSuite true (some (some mine)) (some (some theirs)) (some key)
      (omega arith) (omega arith) (omega arith) (start none)

unwrap_key-Ends_example :
    Ends
      (λ r. r ≡ none)
      (Unwrapping.Refused toy true (some (some theirs)) (some (some mine)) (some encrypted_key))
      (Unwrapping.IsUnwrapped toy true (some (some theirs)) (some (some mine)) (some encrypted_key))
      (start none)
      (unwrap_key toy
        (some true)
        (some (some theirs))
        (some (some mine))
        (some encrypted_key)
        (start none))
unwrap_key-Ends_example =
    unwrap_key-Ends toy toy-IsSuite true (some (some theirs)) (some (some mine))
      (some encrypted_key) (omega arith) (omega arith) (omega arith) (start none)

generate_key-Ends_example :
    Ends
      (λ r. r ≡ none)
      (Generating.Refused toy true)
      (Generating.IsKey toy true)
      (start none)
      (generate_key toy (some true) (start none))
generate_key-Ends_example = generate_key-Ends toy toy-IsSuite true (start none)

generate_key-Shared_example :
    Yields
      (λ r. Generating.IsKey toy true r × Generating.Shared toy mine mine theirs theirs r)
      (start none)
      (generate_key toy (some true) (start none))
generate_key-Shared_example =
    generate_key-Shared toy toy-IsSuite (λ n. refl) mine mine theirs theirs (omega arith)
      (omega arith) (omega arith) (omega arith) refl (start none)
