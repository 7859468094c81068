-- ===== src/Agentd/Payload/Opens.antt =====
-- The payload reader on a packet of the writer, and on one that was altered.
use v_j_bc.Base.{
  ℕ, ◌≡◌, refl, sym, ap, subst, ◌∙◌, true, false, some, ◌++◌, Bytes, arith, length, length-append,
  take, drop, take-append_eq, drop-append_eq, take_all, Option,
}
use v_j_bc.Jni.{ExceptionClass, message_verification, World}
use v_j_bc.Jni.Point.{AllSucceed, IsBlank}
use v_j_bc.Jni.Completes.{Succeeds, Throws, Completes-Succeeds, Completes-Throws}
use v_j_bc.Suite.{Suite, IsSuite}
use v_j_bc.Suite.Stream.{crypt, crypt-crypt}
use v_j_bc.Agentd.Envelope.{packet_header, packet_body, packet_mac}
use v_j_bc.Agentd.Payload.{decrypt_payload}
use v_j_bc.Agentd.Payload.Complete.{
  plain_payload, authentic, Refusal, not_initialized, too_short, forged, Accepted, accepted,
  decrypt_payload-Completes,
}

module _ (suite : Suite) (laws : IsSuite suite) where
  module _ (secret : Bytes) (iv : ℕ) (payload : Bytes) where
    abbrev header : Bytes
    header = packet_header suite secret iv (length payload)

    abbrev body : Bytes
    body = packet_body suite secret iv payload

    abbrev code : Bytes
    code = packet_mac suite secret iv payload

    behind : drop suite.mac_short_size (code ++ body) ≡ body
    behind =
        drop-append_eq suite.mac_short_size code body
          (laws.length-mac_short secret (header ++ body) ∙ sym laws.mac_short_size_lem)

    before : take suite.mac_short_size (code ++ body) ≡ code
    before =
        take-append_eq suite.mac_short_size code body
          (laws.length-mac_short secret (header ++ body) ∙ sym laws.mac_short_size_lem)

    plain : plain_payload suite secret iv (code ++ body) ≡ payload
    plain =
        ap (crypt (suite.decrypt_byte secret (suite.host_u64 iv)) 5) behind
        ∙ crypt-crypt (suite.encrypt_byte secret (suite.host_u64 iv))
            (suite.decrypt_byte secret (suite.host_u64 iv))
            (laws.decrypt_byte-encrypt_byte secret (suite.host_u64 iv)) 5 payload

    sealed-authentic : authentic suite secret header (code ++ body) ≡ true
    sealed-authentic = (laws.crypto_memcmp_eq_iff _ _).1 (
        before
        ∙ sym (
            ap (λ t. take suite.mac_short_size (suite.mac_short secret (header ++ t))) behind
            ∙ take_all suite.mac_short_size code
                (laws.length-mac_short secret (header ++ body) ∙ sym laws.mac_short_size_lem)))

    not-Refused :
        (c : ExceptionClass)
        → Refusal suite true (some secret) (some header) (some (code ++ body)) c
        → ⊥
    not-Refused c (not_initialized h) = cc
    not-Refused c (too_short h) = ground (
      arith,
      laws.mac_short_size_lem,
      length-append code body,
      laws.length-mac_short secret (header ++ body),
    )
    not-Refused c (forged h) = cc sealed-authentic

    pub decrypt_payload-opens :
        AllSucceed suite.calls
        → (w : World (Option Bytes))
        → Succeeds (some payload) w (
            decrypt_payload suite
              (some true)
              (some secret)
              iv
              (some header)
              (some (code ++ body))
              w)
    decrypt_payload-opens all w =
        subst
          (λ p. Succeeds (some p) w (
            decrypt_payload suite (some true) (some secret) iv (some header) (some (code ++ body))
              w))
          plain
          (Completes-Succeeds
            (decrypt_payload-Completes suite laws true iv (some secret) (some header)
              (some (code ++ body)) w)
            all not-Refused)

  module _ (secret header payload : Bytes)
      (bad : authentic suite secret header payload ≡ false) where
    only_forged :
        (c : ExceptionClass)
        → Refusal suite true (some secret) (some header) (some payload) c
        → c ≡ message_verification
    only_forged c (not_initialized h) = cc
    only_forged c (too_short h) = refl
    only_forged c (forged h) = refl

    not-Accepted : ¬ Accepted suite true (some secret) (some header) (some payload)
    not-Accepted (accepted a b c) = cc bad

    -- Where no fallible call fails and the library is initialized: if the bytes in front of the
    -- payload are not the authentication code of the header and of the bytes behind them, the
    -- payload reader throws a MessageVerificationException and returns no plaintext, and gives
    -- back all that it acquired.
    pub decrypt_payload-forged :
        AllSucceed suite.calls
        → (iv : ℕ) (w : World (Option Bytes))
        → Throws message_verification IsBlank w
            (decrypt_payload suite (some true) (some secret) iv (some header) (some payload) w)
    decrypt_payload-forged all iv w =
        Completes-Throws
          (decrypt_payload-Completes suite laws true iv (some secret) (some header) (some payload)
            w)
          all message_verification only_forged not-Accepted
