-- ===== src/Examples/Uuid.antt =====
-- The theorems about UUIDs, on one UUID.
use v_j_bc.Base.{◌≡◌, refl, ◌∷◌, [], Bytes, true, arith}
use v_j_bc.Uuid.{bytes_of, Uuid, object, uuid_from_bytes, uuid_to_bytes}
use v_j_bc.Uuid.RoundTrip.{AreBytes, uuid_from_bytes-uuid_to_bytes, uuid_to_bytes-uuid_from_bytes}

abbrev some_uuid : Uuid
some_uuid = record { most_significant = 0x0102030405060708; least_significant = 0xfffefdfcfbfaf9f8 }

abbrev some_bytes : Bytes
some_bytes = 1 ∷ 2 ∷ 3 ∷ 4 ∷ 5 ∷ 6 ∷ 7 ∷ 8 ∷ 255 ∷ 254 ∷ 253 ∷ 252 ∷ 251 ∷ 250 ∷ 249 ∷ 248 ∷ []

some_bytes-AreBytes : AreBytes some_bytes
some_bytes-AreBytes = search (arith) depth 30

to_bytes_test : uuid_to_bytes some_uuid ≡ some_bytes
unfolding uuid_to_bytes bytes_of
to_bytes_test = refl

uuid_from_bytes-uuid_to_bytes_example :
    uuid_from_bytes true (uuid_to_bytes some_uuid) ≡ object some_uuid
uuid_from_bytes-uuid_to_bytes_example =
    uuid_from_bytes-uuid_to_bytes some_uuid (omega arith) (omega arith)

uuid_to_bytes-uuid_from_bytes_example :
    (uuid : Uuid) × ((uuid_from_bytes true some_bytes ≡ object uuid)
      × (uuid_to_bytes uuid ≡ some_bytes))
uuid_to_bytes-uuid_from_bytes_example =
    uuid_to_bytes-uuid_from_bytes some_bytes some_bytes-AreBytes refl
