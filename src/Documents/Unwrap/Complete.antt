-- ===== src/Documents/Unwrap/Complete.antt =====
-- What the unwrapping of a key returns, in every case.
use v_j_bc.Base.{
  ◌-◌, ◌≤◌, ◌≡◌, refl, ap, subst, ◌∙◌, Bool, true, Option, none, some, [], Bytes, length, take,
}
use v_j_bc.Base.Prefix.{HasPrefix}
use v_j_bc.Jni.{World, ◌>>=◌}
use v_j_bc.Jni.Point.{shape, Steps}
use v_j_bc.Jni.Rules.{Steps-bind, Steps-mono, Steps-jump, step_rules}
use v_j_bc.Jni.Completes.{Ends, run-Ends}
use v_j_bc.Suite.{Suite, IsSuite}
use v_j_bc.Documents.Envelope.{LongEnveloped, KeyObject, LongKey, unwrapped}
use v_j_bc.Documents.Unwrap.{
  return_null, cleanup, block_dispose, read_private_key, read_public_key, agree, decrypt_blocks,
  unwrap_key_body, unwrap_key,
}
use v_j_bc.Documents.Unwrap.Phases.{
  Refused, IsUnwrapped, is_unwrapped, Phase, agree-Steps, decrypt_blocks-Steps,
  read_private_key-Steps, read_public_key-Steps, no_private_bytes-Steps, no_public_bytes-Steps,
  reasons,
}

module _ (suite : Suite) where
  module _ (laws : IsSuite suite) (b : Bool) where
    rest-Steps :
        (x : Bytes) (public : Option Bytes) (key : Bytes)
        → 32 ≤ length x
        → LongKey (some public)
        → 48 ≤ length key
        → b ≡ true
        → Phase suite laws b
            (some (some x))
            (some public)
            key
            return_null
            block_dispose
            (λ o. IsUnwrapped suite b (some (some x)) (some public) (some key) (some o))
            (read_private_key suite (some x) >>= λ private.
              read_public_key suite public >>= λ public.
              agree suite private public >>= λ secret. decrypt_blocks suite secret key)
    rest-Steps x none key lx ly lk on =
        Steps-bind _ _ (read_private_key-Steps suite laws b x (some none) key lx)
          λ k ek. Steps-jump _ _ (no_public_bytes-Steps suite laws b (some (some x)) key)
    rest-Steps x (some y) key lx ly lk on =
        Steps-bind _ _ (read_private_key-Steps suite laws b x (some (some y)) key lx) λ k ek.
          Steps-bind _ _ (read_public_key-Steps suite laws b (some (some x)) y key ly) λ l el.
            Steps-bind _ _ (agree-Steps suite laws b (some (some x)) (some (some y)) key k l)
              λ s es.
                Steps-mono
                  (λ o h. is_unwrapped on (
                    subst (λ t. HasPrefix (length key - 16) (unwrapped suite t key) o)
                      (es
                        ∙ ap (λ t. suite.long_term_secret t l) ek
                        ∙ ap (λ t. suite.long_term_secret (take 32 x) t) el)
                      h))
                  _ (decrypt_blocks-Steps suite laws b (some (some x)) (some (some y)) key s lk)

    body-Steps :
        (private public : KeyObject) (key : Option Bytes)
        → LongKey private
        → LongKey public
        → LongEnveloped key
        → Steps cleanup
            (λ r. r ≡ none)
            (Refused suite b private public key)
            (shape [] none)
            (shape (cleanup block_dispose) none)
            (λ o. IsUnwrapped suite b private public key (some o))
            (unwrap_key_body suite (some b) private public key)
    unfolding unwrap_key_body
    body-Steps none public key lx ly lk = search (step_rules, reasons) depth 30
    body-Steps (some private) none key lx ly lk = search (step_rules, reasons) depth 30
    body-Steps (some private) (some public) none lx ly lk = search (step_rules, reasons) depth 30
    body-Steps (some none) (some public) (some key) lx ly lk =
        search (step_rules, reasons, Steps-jump, no_private_bytes-Steps suite laws b) depth 30
    body-Steps (some (some x)) (some public) (some key) lx ly lk =
        search (step_rules, reasons, rest-Steps x public key lx ly lk) depth 30

    -- For every argument, with an instance that is not null, key objects of at least 32 bytes, an
    -- encrypted key of at least 48 bytes, and whichever calls fail, the unwrapping of a key ends with
    -- defined behaviour and has given back all that it acquired. It returns an array that begins
    -- with the two blocks of the encrypted key, decrypted under the secret of the two keys, with
    -- nothing thrown, and then the library is initialized and no argument is null; or it throws an
    -- exception of a class for which there is a reason, and returns NULL.
    pub unwrap_key-Ends :
        (private public : KeyObject) (key : Option Bytes)
        → LongKey private
        → LongKey public
        → LongEnveloped key
        → (w : World (Option Bytes))
        → Ends
            (λ r. r ≡ none)
            (Refused suite b private public key)
            (IsUnwrapped suite b private public key)
            w
            (unwrap_key suite (some b) private public key w)
    unfolding unwrap_key
    unwrap_key-Ends private public key lx ly lk w =
        run-Ends block_dispose refl w some (λ a h. h) _ (body-Steps private public key lx ly lk)
