-- ===== src/Hmac/Concat.antt =====
-- The authentication code of several messages is that of their concatenation.
use v_j_bc.Base.{
  ◌≡◌, sym, subst, ◌∙◌, Bool, true, Option, some, List, [], ◌∷◌, ◌++◌, append-nil, append_assoc,
  Bytes,
}
use v_j_bc.Jni.{ExceptionClass, mac_context, World}
use v_j_bc.Jni.Point.{AllSucceed}
use v_j_bc.Jni.Completes.{YieldsKeeping, Ends-Yields}
use v_j_bc.Suite.{Suite, IsSuite}
use v_j_bc.Hmac.{hmac, digest_arr, digest}
use v_j_bc.Hmac.Phases.{digested, objects, Refusal, not_initialized}
use v_j_bc.Hmac.Complete.{digest_arr-Leaves, digest-Leaves}

-- All messages, one behind the other.
abbrev pub concat : List Bytes → Bytes
concat [] = []
concat (m ∷ ms) = m ++ concat ms

digested-concat : (text : Bytes) (ms : List Bytes) → digested text ms ≡ text ++ concat ms
digested-concat text [] = sym (append-nil text)
digested-concat text (m ∷ ms) = digested-concat (text ++ m) ms ∙ append_assoc text m (concat ms)

module _ (suite : Suite) (laws : IsSuite suite) (all : AllSucceed suite.calls) (short : Bool)
    (key : Bytes) where
  never : {A : Type 0} (m : A) (c : ExceptionClass) → Refusal true (some key) (some m) c → ⊥
  never m c (not_initialized h) = cc

  -- Where no fallible call fails and the library is initialized: `digestArrNative` of several
  -- messages returns the authentication code of their concatenation, and so does `digestNative` of
  -- the concatenation, from any state. Neither throws. Both give back all that they acquired but
  -- the MAC context, which stays allocated.
  pub digest_arr-digest :
      (messages : List Bytes) (w v : World (Option Bytes))
      → YieldsKeeping
          (mac_context ∷ [])
          (λ r. r ≡ some (hmac suite short key (concat messages)))
          w
          (digest_arr suite (some true) (some key) (some (objects messages)) short w)
        × YieldsKeeping
            (mac_context ∷ [])
            (λ r. r ≡ some (hmac suite short key (concat messages)))
            v
            (digest suite (some true) (some key) (some (concat messages)) short v)
  digest_arr-digest messages w v = (
    subst
        (λ t.
          YieldsKeeping (mac_context ∷ []) (λ r. r ≡ some (hmac suite short key t)) w
            (digest_arr suite (some true) (some key) (some (objects messages)) short w))
        (digested-concat [] messages)
        (Ends-Yields (digest_arr-Leaves suite laws true short (some key) (some messages) w) all
          (never messages) (λ r p. p.0)),
    Ends-Yields (digest-Leaves suite laws true short (some key) (some (concat messages)) v) all
        (never (concat messages)) (λ r p. p.0),
  )
