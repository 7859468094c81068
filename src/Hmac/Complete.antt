-- ===== src/Hmac/Complete.antt =====
-- What the two computations of an authentication code return, in every case.
use v_j_bc.Base.{
  ◌≡◌, refl, ap, subst, ◌∙◌, Bool, true, Option, none, some, List, [], ◌∷◌, Bytes, get_or,
}
use v_j_bc.Jni.{Resource, mac_context, message_bytes, mac_buffer, World, ◌>>=◌}
use v_j_bc.Jni.Point.{shape, nothing, Passes, IsBlank}
use v_j_bc.Jni.Rules.{Steps-bind, Steps-mono, step_rules}
use v_j_bc.Jni.Remove.{clean, left, given, apart}
use v_j_bc.Jni.Completes.{Leaves, run_body-Leaves, Nothing-apart}
use v_j_bc.Suite.{Suite, IsSuite}
use v_j_bc.Hmac.{
  Label, ArrLabel, hmac, open_mac, return_code, cleanup, mac_buffer_dispose, message_bytes_dispose,
  key_buffer_dispose, key_bytes_dispose, done, arr_cleanup, arr_mac_buffer_dispose,
  arr_key_buffer_dispose, arr_key_bytes_dispose, arr_done, digest_each, digest_arr_body, digest_arr,
  digest_message, digest_body, digest,
}
use v_j_bc.Hmac.Phases.{
  digested, objects, Undisposed, all_disposed, context_left, Accepted, accepted, reasons, Refused,
  arr_open-Passes, arr_return-Passes, digest_each-Passes, open-Passes, digest_message-Passes,
  return-Passes,
}

arr_Undisposed-apart :
    (leaked : List Resource)
    → Undisposed leaked
    → (l : ArrLabel) → apart leaked (arr_cleanup l) ≡ true
arr_Undisposed-apart _ all_disposed l = Nothing-apart arr_cleanup [] nothing l
arr_Undisposed-apart _ context_left arr_mac_buffer_dispose = refl
arr_Undisposed-apart _ context_left arr_key_buffer_dispose = refl
arr_Undisposed-apart _ context_left arr_key_bytes_dispose = refl
arr_Undisposed-apart _ context_left arr_done = refl

Undisposed-apart :
    (leaked : List Resource) → Undisposed leaked → (l : Label) → apart leaked (cleanup l) ≡ true
Undisposed-apart _ all_disposed l = Nothing-apart cleanup [] nothing l
Undisposed-apart _ context_left mac_buffer_dispose = refl
Undisposed-apart _ context_left message_bytes_dispose = refl
Undisposed-apart _ context_left key_buffer_dispose = refl
Undisposed-apart _ context_left key_bytes_dispose = refl
Undisposed-apart _ context_left done = refl

module _ (suite : Suite) (laws : IsSuite suite) where
  module _ (b : Bool) (short : Bool) where
    -- The messages of a call, which may be null.
    abbrev pub messages_of : Option (List Bytes) → Option (List (Option Bytes))
    messages_of none = none
    messages_of (some ms) = some (objects ms)

    arr_body-Passes :
        (key : Option Bytes) (messages : Option (List Bytes))
        → Passes arr_cleanup Undisposed IsBlank
            (Refused suite laws b key messages)
            (shape [] none)
            (shape
              (mac_buffer ∷ mac_context ∷ arr_cleanup arr_key_buffer_dispose)
              (some (hmac suite short (get_or key []) (digested [] (get_or messages [])))))
            (λ _. Accepted b key messages)
            (digest_arr_body suite (some b) key (messages_of messages) short)
    unfolding digest_arr_body
    arr_body-Passes none none = search (step_rules, reasons) depth 30 fits 4000
    arr_body-Passes none (some ms) = search (step_rules, reasons) depth 30 fits 4000
    arr_body-Passes (some key) none = search (step_rules, reasons) depth 30 fits 4000
    arr_body-Passes (some key) (some ms) = search (step_rules, reasons, rest) depth 30 fits 4000
      where
        rest :
            b ≡ true
            → Passes arr_cleanup Undisposed IsBlank
                (Refused suite laws b (some key) (some ms))
                (shape [] none)
                (shape
                  (mac_buffer ∷ mac_context ∷ arr_cleanup arr_key_buffer_dispose)
                  (some (hmac suite short key (digested [] ms))))
                (λ _. Accepted b (some key) (some ms))
                (open_mac suite arr_key_buffer_dispose arr_key_bytes_dispose arr_done short key
                  >>= λ k. digest_each suite (objects ms) [] >>= λ text.
                      return_code suite arr_mac_buffer_dispose arr_key_buffer_dispose short k text)
        rest on = Steps-bind _ _ (arr_open-Passes suite laws _ short key) λ k ek.
            Steps-bind _ _ (digest_each-Passes suite laws _ ms []) λ t et.
              Steps-mono (λ _ _. accepted on) _
                (subst
                  (λ c.
                    Passes arr_cleanup Undisposed IsBlank
                      (Refused suite laws b (some key) (some ms))
                      (shape (mac_context ∷ arr_cleanup arr_key_buffer_dispose) none)
                      (shape (mac_buffer ∷ mac_context ∷ arr_cleanup arr_key_buffer_dispose)
                        (some c))
                      (λ _. Unit {0})
                      (return_code suite arr_mac_buffer_dispose arr_key_buffer_dispose short k t))
                  (ap (λ u. hmac suite short u t) ek ∙ ap (hmac suite short key) et)
                  (arr_return-Passes suite laws _ short k t))

    body-Passes :
        (key message : Option Bytes)
        → Passes cleanup Undisposed IsBlank
            (Refused suite laws b key message)
            (shape [] none)
            (shape
              (mac_buffer ∷ message_bytes ∷ mac_context ∷ cleanup key_buffer_dispose)
              (some (hmac suite short (get_or key []) (get_or message []))))
            (λ _. Accepted b key message)
            (digest_body suite (some b) key message short)
    unfolding digest_body
    body-Passes none none = search (step_rules, reasons) depth 30 fits 4000
    body-Passes none (some m) = search (step_rules, reasons) depth 30 fits 4000
    body-Passes (some key) none = search (step_rules, reasons) depth 30 fits 4000
    body-Passes (some key) (some m) = search (step_rules, reasons, rest) depth 30 fits 4000
      where
        rest :
            b ≡ true
            → Passes cleanup Undisposed IsBlank
                (Refused suite laws b (some key) (some m))
                (shape [] none)
                (shape
                  (mac_buffer ∷ message_bytes ∷ mac_context ∷ cleanup key_buffer_dispose)
                  (some (hmac suite short key m)))
                (λ _. Accepted b (some key) (some m))
                (open_mac suite key_buffer_dispose key_bytes_dispose done short key >>= λ k.
                  digest_message suite m >>= λ text.
                  return_code suite mac_buffer_dispose message_bytes_dispose short k text)
        rest on = Steps-bind _ _ (open-Passes suite laws _ short key) λ k ek.
            Steps-bind _ _ (digest_message-Passes suite laws _ m) λ t et.
              Steps-mono (λ _ _. accepted on) _
                (subst
                  (λ c.
                    Passes cleanup Undisposed IsBlank (Refused suite laws b (some key) (some m))
                      (shape (message_bytes ∷ mac_context ∷ cleanup key_buffer_dispose) none)
                      (shape (mac_buffer ∷ message_bytes ∷ mac_context ∷ cleanup key_buffer_dispose)
                        (some c))
                      (λ _. Unit {0})
                      (return_code suite mac_buffer_dispose message_bytes_dispose short k t))
                  (ap (λ u. hmac suite short u t) ek ∙ ap (hmac suite short key) et)
                  (return-Passes suite laws _ short k t))

    -- For every key and list of messages, either of which may be null, with an instance that is not
    -- null and no message in the list null, and whichever calls fail, `digestArrNative` ends with
    -- defined behaviour. It returns the short or the long authentication code of the messages, one
    -- behind the other, with nothing thrown, and then the library is initialized, neither argument is
    -- null, and it has given back all that it acquired but the MAC context, which stays allocated; or
    -- it throws an exception of a class for which there is a reason, returns NULL or an array of
    -- zeros, and has given back all that it acquired, or all but the MAC context.
    pub digest_arr-Leaves :
        (key : Option Bytes) (messages : Option (List Bytes)) (w : World (Option Bytes))
        → Leaves
            (mac_context ∷ [])
            Undisposed
            IsBlank
            (Refused suite laws b key messages)
            (λ r.
              (r ≡ some (hmac suite short (get_or key []) (digested [] (get_or messages []))))
              × Accepted b key messages)
            w
            (digest_arr suite (some b) key (messages_of messages) short w)
    unfolding digest_arr
    digest_arr-Leaves key messages w =
        run_body-Leaves arr_Undisposed-apart arr_mac_buffer_dispose (given (left clean)) refl w _
          (arr_body-Passes key messages)

    -- The same of `digestNative`, for one message.
    pub digest-Leaves :
        (key message : Option Bytes) (w : World (Option Bytes))
        → Leaves
            (mac_context ∷ [])
            Undisposed
            IsBlank
            (Refused suite laws b key message)
            (λ r.
              (r ≡ some (hmac suite short (get_or key []) (get_or message [])))
              × Accepted b key message)
            w
            (digest suite (some b) key message short w)
    unfolding digest
    digest-Leaves key message w =
        run_body-Leaves Undisposed-apart mac_buffer_dispose (given (given (left clean))) refl w _
          (body-Passes key message)
