-- ===== src/Agentd/Header/Opens.antt =====
-- The header reader on a header of the writer.
use v_j_bc.Base.{
  ℕ, ◌≤◌, ◌≡◌, ap, subst, ◌∙◌, true, some, ◌∷◌, Bytes, arith, head_or, take, drop, take_all, ℤ, pos,
}
use v_j_bc.Jni.{ExceptionClass, World}
use v_j_bc.Jni.Point.{AllSucceed}
use v_j_bc.Jni.Completes.{Succeeds, Completes-Succeeds}
use v_j_bc.Suite.{Suite, IsSuite}
use v_j_bc.Suite.Stream.{crypt-crypt, length-crypt}
use v_j_bc.Agentd.Envelope.{
  authed_packet, max_payload_size, htonl_bytes, ntohl_bytes, length-htonl_bytes,
  ntohl_bytes-htonl_bytes, packet_header,
}
use v_j_bc.Agentd.Header.{decrypt_header}
use v_j_bc.Agentd.Header.Complete.{
  plain_header, announced_size, Refusal, not_initialized, bad_length, bad_type, bad_size,
  decrypt_header-Completes,
}

module _ (suite : Suite) (laws : IsSuite suite) (secret : Bytes) (iv n : ℕ)
    (small : n ≤ max_payload_size) where
  abbrev header : Bytes
  header = packet_header suite secret iv n

  plain : plain_header suite secret iv header ≡ authed_packet ∷ htonl_bytes n
  plain =
      crypt-crypt (suite.encrypt_byte secret (suite.host_u64 iv))
        (suite.decrypt_byte secret (suite.host_u64 iv))
        (laws.decrypt_byte-encrypt_byte secret (suite.host_u64 iv)) 0
        (authed_packet ∷ htonl_bytes n)

  announced : announced_size suite secret iv header ≡ n
  announced =
      ap (λ t. ntohl_bytes (take 4 (drop 1 t))) plain
      ∙ ap ntohl_bytes (take_all 4 (htonl_bytes n) (length-htonl_bytes n))
      ∙ ntohl_bytes-htonl_bytes n (omega arith)

  not-Refused : (c : ExceptionClass) → Refusal suite true iv (some secret) (some header) c → ⊥
  not-Refused c (not_initialized h) = cc
  not-Refused c (bad_length h) = ground (
    arith,
    length-crypt (suite.encrypt_byte secret (suite.host_u64 iv)) 0 (authed_packet ∷ htonl_bytes n),
    length-htonl_bytes n,
  )
  not-Refused c (bad_type h) = ground (arith, ap (λ (t : Bytes). head_or t 0) plain)
  not-Refused c (bad_size h) = ground (arith, announced)

  pub decrypt_header-opens :
      AllSucceed suite.calls
      → (w : World ℤ)
      → Succeeds (pos n) w (decrypt_header suite (some true) (some secret) iv (some header) w)
  decrypt_header-opens all w =
      subst
        (λ k.
          Succeeds (pos k) w (decrypt_header suite (some true) (some secret) iv (some header) w))
        announced
        (Completes-Succeeds
          (decrypt_header-Completes suite laws true iv (some secret) (some header) w) all
          not-Refused)
