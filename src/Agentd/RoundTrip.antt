-- ===== src/Agentd/RoundTrip.antt =====
-- The writer, and then the two readers on what it wrote.
use v_j_bc.Base.{
  ℕ, ◌≤◌, ◌≡◌, true, some, Option, ◌++◌, Bytes, subst, length, take, drop, take-append_eq,
  drop-append_eq, subst₂, sym, ℤ, pos,
}
use v_j_bc.Jni.{ExceptionClass, World}
use v_j_bc.Jni.Point.{AllSucceed}
use v_j_bc.Jni.Completes.{Succeeds, Completes-Succeeds}
use v_j_bc.Suite.{Suite, IsSuite}
use v_j_bc.Agentd.Envelope.{max_payload_size, packet, packet_header, packet_body, packet_mac}
use v_j_bc.Agentd.Header.{decrypt_header}
use v_j_bc.Agentd.Header.Opens.{decrypt_header-opens}
use v_j_bc.Agentd.Payload.{decrypt_payload}
use v_j_bc.Agentd.Payload.Opens.{decrypt_payload-opens}
use v_j_bc.Agentd.Writer.{encrypt_payload}
use v_j_bc.Agentd.Writer.Complete.{Refusal, not_initialized, encrypt_payload-Completes}
use v_j_bc.Agentd.Writer.Layout.{length-packet_header}

module _ (suite : Suite) (laws : IsSuite suite) (all : AllSucceed suite.calls) (secret : Bytes)
    (iv : ℕ) where
  not-Refused : (c : ExceptionClass) → Refusal suite true (some secret) c → ⊥
  not-Refused c (not_initialized h) = cc

  pub encrypt_payload-Succeeds :
      (payload : Bytes) (w : World (Option Bytes))
      → Succeeds
          (some (packet suite secret iv payload))
          w
          (encrypt_payload suite (some true) (some secret) iv (some payload) w)
  encrypt_payload-Succeeds payload w =
      Completes-Succeeds (encrypt_payload-Completes suite laws true iv (some secret) payload w) all
        not-Refused

  -- Where no fallible call fails and the library is initialized, for a payload of at most 10 MB:
  -- the writer returns the packet of the payload; the header reader, given the first five bytes
  -- of the packet, returns the size of the payload; and the payload reader, given these five
  -- bytes and the rest, returns the payload. None of the three throws, and each gives back all
  -- that it acquired.
  pub packet_round_trip :
      (payload : Bytes)
      → length payload ≤ max_payload_size
      → (w v : World (Option Bytes)) (u : World ℤ)
      → let p = packet suite secret iv payload in
        Succeeds (some p) w (encrypt_payload suite (some true) (some secret) iv (some payload) w)
        × Succeeds
            (pos (length payload))
            u
            (decrypt_header suite (some true) (some secret) iv (some (take 5 p)) u)
        × Succeeds (some payload) v (
            decrypt_payload suite
              (some true)
              (some secret)
              iv
              (some (take 5 p))
              (some (drop 5 p))
              v)
  packet_round_trip payload small w v u = (
    encrypt_payload-Succeeds payload w,
    subst
        (λ h.
          Succeeds (pos (length payload)) u
            (decrypt_header suite (some true) (some secret) iv (some h) u))
        (sym front) (decrypt_header-opens suite laws secret iv (length payload) small all u),
    subst₂
        (λ h b.
          Succeeds (some payload) v
            (decrypt_payload suite (some true) (some secret) iv (some h) (some b) v))
        (sym front) (sym back) (decrypt_payload-opens suite laws secret iv payload all v),
  )
    where
      rest : Bytes
      rest = packet_mac suite secret iv payload ++ packet_body suite secret iv payload

      front :
          take 5 (packet suite secret iv payload) ≡ packet_header suite secret iv (length payload)
      front =
          take-append_eq 5 (packet_header suite secret iv (length payload)) rest
            (length-packet_header suite secret iv (length payload))

      back : drop 5 (packet suite secret iv payload) ≡ rest
      back =
          drop-append_eq 5 (packet_header suite secret iv (length payload)) rest
            (length-packet_header suite secret iv (length payload))
