-- ===== src/Examples/Agentd.antt =====
-- The theorems about the outer envelope, on packets of three bytes.
use v_j_bc.Base.{
  new_array, ◌≡◌, refl, true, false, none, some, [], ◌∷◌, Bytes, arith, take, drop, pos, minus_one,
  memcmp_eq, new_array,
}
use v_j_bc.Jni.{message_verification}
use v_j_bc.Jni.Point.{IsBlank}
use v_j_bc.Jni.Completes.{Succeeds, Completes, Throws}
use v_j_bc.Agentd.Envelope.{packet}
use v_j_bc.Agentd.Header.{decrypt_header}
use v_j_bc.Agentd.Header.Complete as Reading
use v_j_bc.Agentd.Payload.{decrypt_payload}
use v_j_bc.Agentd.Payload.Complete as Opening
use v_j_bc.Agentd.Payload.Opens.{decrypt_payload-forged}
use v_j_bc.Agentd.Writer.{encrypt_payload}
use v_j_bc.Agentd.Writer.Complete.{encrypt_payload-Completes}
use v_j_bc.Agentd.Writer.Complete as Writing
use v_j_bc.Agentd.RoundTrip.{packet_round_trip}
use v_j_bc.Agentd.SharedSecret.{compute_shared_secret}
use v_j_bc.Agentd.SharedSecret.Complete as Sharing
use v_j_bc.Examples.Toy.{toy, toy-IsSuite, start}

abbrev secret : Bytes
secret = 7 ∷ 8 ∷ 9 ∷ []

abbrev payload : Bytes
payload = 1 ∷ 2 ∷ 3 ∷ []

abbrev sealed : Bytes
sealed = packet toy secret 5 payload

-- A header and a payload whose authentication code is not theirs.
abbrev odd_header : Bytes
odd_header = 1 ∷ 2 ∷ 3 ∷ 4 ∷ 5 ∷ []

abbrev forgery : Bytes
forgery = 1 ∷ new_array 34

forgery-not_authentic : Opening.authentic toy secret odd_header forgery ≡ false
unfolding memcmp_eq
forgery-not_authentic = refl

packet_round_trip_example :
    Succeeds
      (some sealed)
      (start none)
      (encrypt_payload toy (some true) (some secret) 5 (some payload) (start none))
    × Succeeds
        (pos 3)
        (start minus_one)
        (decrypt_header toy (some true) (some secret) 5 (some (take 5 sealed)) (start minus_one))
    × Succeeds (some payload) (start none) (
        decrypt_payload toy
          (some true)
          (some secret)
          5
          (some (take 5 sealed))
          (some (drop 5 sealed))
          (start none))
packet_round_trip_example =
    packet_round_trip toy toy-IsSuite (λ n. refl) secret 5 payload (omega arith) (start none)
      (start none) (start minus_one)

decrypt_payload-forged_example :
    Throws message_verification IsBlank (start none) (
      decrypt_payload toy (some true) (some secret) 5 (some odd_header) (some forgery) (start none))
decrypt_payload-forged_example =
    decrypt_payload-forged toy toy-IsSuite secret odd_header forgery forgery-not_authentic
      (λ n. refl) 5 (start none)

encrypt_payload-Completes_example :
    Completes IsBlank
      (Writing.Refused toy true (some secret))
      (true ≡ true)
      (some sealed)
      (start none)
      (encrypt_payload toy (some true) (some secret) 5 (some payload) (start none))
encrypt_payload-Completes_example =
    encrypt_payload-Completes toy toy-IsSuite true 5 (some secret) payload (start none)

decrypt_payload-Completes_example :
    Completes IsBlank
      (Opening.Refused toy true (some secret) (some (take 5 sealed)) (some (drop 5 sealed)))
      (Opening.Accepted toy true (some secret) (some (take 5 sealed)) (some (drop 5 sealed)))
      (some (Opening.plain_payload toy secret 5 (drop 5 sealed)))
      (start none)
      (decrypt_payload toy
        (some true)
        (some secret)
        5
        (some (take 5 sealed))
        (some (drop 5 sealed))
        (start none))
decrypt_payload-Completes_example =
    Opening.decrypt_payload-Completes toy toy-IsSuite true 5 (some secret) (some (take 5 sealed))
      (some (drop 5 sealed)) (start none)

decrypt_header-Completes_example :
    Completes
      (λ r. r ≡ minus_one)
      (Reading.Refused toy true 5 (some secret) (some (take 5 sealed)))
      (Reading.Accepted toy true 5 (some secret) (some (take 5 sealed)))
      (pos (Reading.announced_size toy secret 5 (take 5 sealed)))
      (start minus_one)
      (decrypt_header toy (some true) (some secret) 5 (some (take 5 sealed)) (start minus_one))
decrypt_header-Completes_example =
    Reading.decrypt_header-Completes toy toy-IsSuite true 5 (some secret) (some (take 5 sealed))
      (start minus_one)

compute_shared_secret-Completes_example :
    Completes IsBlank
      (Sharing.Refused toy true (some secret) (some payload) (some secret) (some payload))
      (Sharing.Accepted toy true (some secret) (some payload) (some secret) (some payload))
      (some (30 ∷ 24 ∷ 6 ∷ []))
      (start none)
      (compute_shared_secret toy
        (some true)
        (some secret)
        (some payload)
        (some secret)
        (some payload)
        (start none))
compute_shared_secret-Completes_example =
    Sharing.compute_shared_secret-Completes toy true (some secret) (some payload) (some secret)
      (some payload) (start none)
