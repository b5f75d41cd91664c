-- ===== src/Domain/Notifications/Tests.antt =====
-- Keys under a small encoding that moves every unit above the colon.
use Prim.Native.String.{String}
use link_alive.Common.{
  ℕ, ◌+◌, ◌≡◌, refl, Option, some, List, [], ◌∷◌, ok, text, trim, Without, arith,
}
use link_alive.Domain.Notifications.{
  down, NotificationDedupeParts, UriEncoding, incident_key, test_key, require_identifier,
  create_notification_dedupe_key, create_test_notification_dedupe_key,
}
use link_alive.Domain.Notifications.Keys.{create_notification_dedupe_key_injective}

abbrev moved : List ℕ → List ℕ
moved [] = []
moved (c ∷ cs) = (c + 59) ∷ moved cs

moved_injective : (s t : List ℕ) → moved s ≡ moved t → s ≡ t
moved_injective [] [] h = refl
moved_injective [] (d ∷ t) h = cc
moved_injective (c ∷ s) [] h = cc
moved_injective (c ∷ s) (d ∷ t) h =
    let heads : c + 59 ≡ d + 59 = cc in
    let same : c ≡ d = omega arith in let rest = moved_injective s t (cc) in cc

moved-Without : (s : List ℕ) → Without 58 (moved s)
moved-Without [] = tt
moved-Without (c ∷ s) = (omega arith, moved-Without s)

encode_injective :
    (s t u : List ℕ)
    → ◌≡◌ {A = Option (List ℕ)} (some (moved s)) (some u)
    → ◌≡◌ {A = Option (List ℕ)} (some (moved t)) (some u)
    → s ≡ t
encode_injective s t u h k = moved_injective s t (cc)

some-moved-Without :
    (s u : List ℕ) → ◌≡◌ {A = Option (List ℕ)} (some (moved s)) (some u) → Without 58 u
some-moved-Without s u h = let same : moved s ≡ u = cc in rw (← same) (moved-Without s)

abbrev shifted : UriEncoding
shifted = record {
  encode = λ s. some (moved s);
  encode_injective = encode_injective;
  encode_colon = some-moved-Without;
}

abbrev down_of : String → NotificationDedupeParts
down_of incident = record { incident_id = text incident; channel_id = text "c1"; event_type = down }

abbrev down_key : List ℕ
down_key = incident_key (moved (text "i1")) (moved (text "c1")) (text "DOWN")

plain : create_notification_dedupe_key shifted (down_of "i1") ≡ ok down_key
unfolding create_notification_dedupe_key require_identifier trim
plain = refl

padded : create_notification_dedupe_key shifted (down_of " i1 ") ≡ ok down_key
unfolding create_notification_dedupe_key require_identifier trim
padded = refl

create_notification_dedupe_key_injective_example :
    (trim (text "i1") ≡ trim (text " i1 ")) × (trim (text "c1") ≡ trim (text "c1")) × (down ≡ down)
create_notification_dedupe_key_injective_example =
    create_notification_dedupe_key_injective shifted (down_of "i1") (down_of " i1 ") down_key plain
      padded

message :
    create_test_notification_dedupe_key shifted (text "c1") (text "r1")
    ≡ ok (test_key (moved (text "c1")) (moved (text "r1")))
unfolding create_test_notification_dedupe_key require_identifier trim
message = refl
