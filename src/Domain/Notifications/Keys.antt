-- ===== src/Domain/Notifications/Keys.antt =====
-- The idempotency keys name what they are made of.
use link_alive.Common.{
  ℕ, ◌≡◌, ◌≢◌, sym, ap, ◌∙◌, ◌++◌, Option, none, some, List, [], ◌∷◌, ok, >>=-eq-ok, text, trim,
  Without, split_unique, arith,
}
use link_alive.Domain.Notifications.{
  IncidentEventType, event_name, NotificationDedupeParts, UriEncoding, require_identifier,
  or_malformed, incident_key, test_key, create_notification_dedupe_key,
  create_test_notification_dedupe_key,
}

event_name_injective : (e f : IncidentEventType) → event_name e ≡ event_name f → e ≡ f
event_name_injective e f h = ground arith

require-eq-trim : (v u : List ℕ) → require_identifier v ≡ ok u → u ≡ trim v
unfolding require_identifier
require-eq-trim v u h = ground arith

or_malformed-ok : (o : Option (List ℕ)) (u : List ℕ) → or_malformed o ≡ ok u → o ≡ some u
or_malformed-ok none u h = cc
or_malformed-ok (some v) u h = cc

-- The two parts of an incident key are found again at its colons.
incident_key_injective :
    (a b c d e f : List ℕ)
    → Without 58 a
    → Without 58 b
    → Without 58 c
    → Without 58 d
    → incident_key a b e ≡ incident_key c d f
    → (a ≡ c) × (b ≡ d) × (e ≡ f)
incident_key_injective a b c d e f ha hb hc hd h =
    let (first, rest) =
      split_unique 58 a c (text "channel:" ++ (b ++ (text ":event:" ++ e)))
        (text "channel:" ++ (d ++ (text ":event:" ++ f))) ha hc (cc) in
    let (second, last) = split_unique 58 b d (text "event:" ++ e) (text "event:" ++ f) hb hd (cc) in
    (first, second, cc)

test_key_tail :
    (a b c d : List ℕ)
    → test_key a b ≡ test_key c d
    → a ++ 58 ∷ (text "test:" ++ b) ≡ c ++ 58 ∷ (text "test:" ++ d)
test_key_tail a b c d h = cc

test_tail : (b d : List ℕ) → text "test:" ++ b ≡ text "test:" ++ d → b ≡ d
test_tail b d h = cc

abbrev first_unit : List ℕ → ℕ
first_unit [] = 0
first_unit (c ∷ cs) = c

test_key-ne-incident_key : (a b c d e : List ℕ) → test_key a b ≢ incident_key c d e
test_key-ne-incident_key a b c d e h =
    let heads : first_unit (test_key a b) ≡ first_unit (incident_key c d e) = ap first_unit h in
    absurd (omega arith)

module _ (uri : UriEncoding) where
  -- What a key was made of: the encodings of the two trimmed ids.
  key_parts :
      (p : NotificationDedupeParts) (k : List ℕ)
      → create_notification_dedupe_key uri p ≡ ok k
      → (a : List ℕ) × (b : List ℕ) × (uri.encode (trim p.incident_id) ≡ some a)
        × (uri.encode (trim p.channel_id) ≡ some b)
        × (k ≡ incident_key a b (event_name p.event_type))
  unfolding create_notification_dedupe_key
  key_parts p k h =
      let (i, ei, h1) = >>=-eq-ok (require_identifier p.incident_id) _ h in
      let (c, ec, h2) = >>=-eq-ok (require_identifier p.channel_id) _ h1 in
      let (a, ea, h3) = >>=-eq-ok (or_malformed (uri.encode i)) _ h2 in
      let (b, eb, h4) = >>=-eq-ok (or_malformed (uri.encode c)) _ h3 in
      (
        a,
        b,
        rw (← require-eq-trim _ _ ei) (or_malformed-ok _ _ ea),
        rw (← require-eq-trim _ _ ec) (or_malformed-ok _ _ eb),
        cc,
      )

  -- Two notifications share an idempotency key only if they are about the same incident, the same
  -- channel and the same kind of event, up to white space around the ids.
  pub create_notification_dedupe_key_injective :
      (p q : NotificationDedupeParts) (k : List ℕ)
      → create_notification_dedupe_key uri p ≡ ok k
      → create_notification_dedupe_key uri q ≡ ok k
      → (trim p.incident_id ≡ trim q.incident_id)
        × (trim p.channel_id ≡ trim q.channel_id)
        × (p.event_type ≡ q.event_type)
  create_notification_dedupe_key_injective p q k hp hq =
      let (a, b, pa, pb, pk) = key_parts p k hp in
      let (c, d, qc, qd, qk) = key_parts q k hq in
      let (i, ch, e) =
        incident_key_injective a b c d (event_name p.event_type) (event_name q.event_type)
          (uri.encode_colon _ _ pa) (uri.encode_colon _ _ pb) (uri.encode_colon _ _ qc)
          (uri.encode_colon _ _ qd) (sym pk ∙ qk) in
      (
        uri.encode_injective _ _ a pa (rw i qc),
        uri.encode_injective _ _ b pb (rw ch qd),
        event_name_injective _ _ e,
      )

  test_key_parts :
      (channel request k : List ℕ)
      → create_test_notification_dedupe_key uri channel request ≡ ok k
      → (a : List ℕ) × (b : List ℕ) × (uri.encode (trim channel) ≡ some a)
        × (uri.encode (trim request) ≡ some b)
        × (k ≡ test_key a b)
  unfolding create_test_notification_dedupe_key
  test_key_parts channel request k h =
      let (i, ei, h1) = >>=-eq-ok (require_identifier channel) _ h in
      let (c, ec, h2) = >>=-eq-ok (require_identifier request) _ h1 in
      let (a, ea, h3) = >>=-eq-ok (or_malformed (uri.encode i)) _ h2 in
      let (b, eb, h4) = >>=-eq-ok (or_malformed (uri.encode c)) _ h3 in
      (
        a,
        b,
        rw (← require-eq-trim _ _ ei) (or_malformed-ok _ _ ea),
        rw (← require-eq-trim _ _ ec) (or_malformed-ok _ _ eb),
        cc,
      )

  -- Nor does a test message share its key with another: two test keys are equal only for one channel
  -- and one request, and a test key is never the key of an incident's notification.
  pub create_test_notification_dedupe_key_injective :
      (channel request channel' request' : List ℕ) (p : NotificationDedupeParts) (k : List ℕ)
      → create_test_notification_dedupe_key uri channel request ≡ ok k
      → (create_test_notification_dedupe_key uri channel' request' ≡ ok k
          → (trim channel ≡ trim channel') × (trim request ≡ trim request'))
        × (create_notification_dedupe_key uri p ≢ ok k)
  create_test_notification_dedupe_key_injective channel request channel' request' p k h =
      let (a, b, ha, hb, hk) = test_key_parts channel request k h in
      (
        λ h'.
            let (c, d, hc, hd, hk') = test_key_parts channel' request' k h' in
            let (same, rest) =
              split_unique 58 a c (text "test:" ++ b) (text "test:" ++ d) (uri.encode_colon _ _ ha)
                (uri.encode_colon _ _ hc) (test_key_tail a b c d (sym hk ∙ hk')) in
            (
              uri.encode_injective _ _ a ha (rw same hc),
              uri.encode_injective _ _ b hb (rw (test_tail b d rest) hd),
            ),
        λ h'.
            let (c, d, hc, hd, hk') = key_parts p k h' in
            test_key-ne-incident_key a b c d _ (sym hk ∙ hk'),
      )
