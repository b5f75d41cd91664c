-- ===== src/Worker/Outbox/Evolution.antt =====
-- How the rows of the outbox and its deliveries go on under a statement.
use link_alive.Common.{
  ℕ, ◌≤◌, ◌<◌, ◌≡◌, refl, ◌∙◌, Bool, true, ◌&&◌, ◌||◌, List, [], ◌∷◌, arith, any, Each,
}
use link_alive.Worker.Delivery.{is_sent}
use link_alive.Worker.Outbox.Rows.{NotificationOutbox, NotificationDelivery, is_processing}
use link_alive.Worker.Outbox.Statements.{is_down_of}
use link_alive.Worker.Outbox.Claims.{is_attempting}
use link_alive.Worker.Outbox.Steps.{Among, first, further}

-- The row stays what it is of, and once it has been sent it stays sent with no further attempt.
pub record Lives (o p : NotificationOutbox) : Type 0 where
  pub same_id : p.id ≡ o.id
  pub same_incident : p.incident_id ≡ o.incident_id
  pub same_channel : p.channel_id ≡ o.channel_id
  pub same_type : p.event_type ≡ o.event_type
  pub same_message : p.message_id ≡ o.message_id
  pub same_max : p.max_attempts ≡ o.max_attempts
  pub stays_sent : is_sent o.status ≡ true → is_sent p.status ≡ true
  pub no_more : is_sent o.status ≡ true → p.attempt_count ≡ o.attempt_count
  pub grows : o.attempt_count ≤ p.attempt_count

-- A notification that is being sent or was sent has had an attempt, and none has more than it may.
pub record IsSound (o : NotificationOutbox) : Type 0 where
  pub started : (is_sent o.status || is_processing o.status) ≡ true → 0 < o.attempt_count
  pub bounded : o.attempt_count ≤ o.max_attempts

-- A change that is not the start of an attempt.
pub record Evolves (o p : NotificationOutbox) : Type 0 where
  pub lives : Lives o p
  pub same_count : p.attempt_count ≡ o.attempt_count
  pub keeps : IsSound o → IsSound p

pub Lives-refl : (o : NotificationOutbox) → Lives o o
Lives-refl o = ground arith

pub Evolves-refl : (o : NotificationOutbox) → Evolves o o
Evolves-refl o = record { lives = Lives-refl o; same_count = refl; keeps = λ h. h }

pub Lives-trans : (o p q : NotificationOutbox) → Lives o p → Lives p q → Lives o q
Lives-trans o p q h k = record {
  same_id = k.same_id ∙ h.same_id;
  same_incident = k.same_incident ∙ h.same_incident;
  same_channel = k.same_channel ∙ h.same_channel;
  same_type = k.same_type ∙ h.same_type;
  same_message = k.same_message ∙ h.same_message;
  same_max = k.same_max ∙ h.same_max;
  stays_sent = λ s. k.stays_sent (h.stays_sent s);
  no_more = λ s. k.no_more (h.stays_sent s) ∙ h.no_more s;
  grows = omega (arith, h.grows, k.grows);
}

pub Evolves-trans : (o p q : NotificationOutbox) → Evolves o p → Evolves p q → Evolves o q
Evolves-trans o p q h k = record {
  lives = Lives-trans o p q h.lives k.lives;
  same_count = k.same_count ∙ h.same_count;
  keeps = λ w. k.keeps (h.keeps w);
}

abbrev pub EachEvolves : List NotificationOutbox → List NotificationOutbox → Type 0
EachEvolves = Each Evolves

abbrev pub EachLives : List NotificationOutbox → List NotificationOutbox → Type 0
EachLives = Each Lives

pub EachLives-of_Evolves :
    (rows after : List NotificationOutbox) → EachEvolves rows after → EachLives rows after
EachLives-of_Evolves [] [] h = tt
EachLives-of_Evolves (o ∷ os) (p ∷ ps) (e, h) = (e.lives, EachLives-of_Evolves os ps h)
EachLives-of_Evolves _ _ h = absurd h

-- Each of the rows of `base` is still there.
abbrev pub Carried : List NotificationOutbox → List NotificationOutbox → Type 0
Carried base rows =
    (o : NotificationOutbox) → Among o base → (p : NotificationOutbox) × Among p rows × Lives o p

Among-Lives :
    (rows after : List NotificationOutbox) (o : NotificationOutbox)
    → EachLives rows after
    → Among o rows
    → (p : NotificationOutbox) × Among p after × Lives o p
Among-Lives (o ∷ os) (p ∷ ps) _ (l, h) first = (p, first, l)
Among-Lives (o ∷ os) (p ∷ ps) b (l, h) (further later) =
    let (q, among, lives) = Among-Lives os ps b h later in (q, further among, lives)
Among-Lives [] _ b h among = elim among [ ]
Among-Lives (o ∷ os) [] b h among = absurd h

pub Carried-Lives :
    (base rows after : List NotificationOutbox)
    → EachLives rows after
    → Carried base rows
    → Carried base after
Carried-Lives base rows after h carried o among =
    let (p, among_p, later) = carried o among in
    let (q, among_q, last) = Among-Lives rows after p h among_p in
    (q, among_q, Lives-trans o p q later last)

-- A delivery stays of its notification and its attempt, and does not begin again.
pub record Ends (d e : NotificationDelivery) : Type 0 where
  pub same_id : e.id ≡ d.id
  pub same_outbox : e.outbox_id ≡ d.outbox_id
  pub same_attempt : e.attempt ≡ d.attempt
  pub same_message : e.message_id ≡ d.message_id
  pub attempting : is_attempting e.status ≡ true → is_attempting d.status ≡ true

pub Ends-refl : (d : NotificationDelivery) → Ends d d
Ends-refl d = ground arith

abbrev pub EachEnds : List NotificationDelivery → List NotificationDelivery → Type 0
EachEnds = Each Ends

-- The DOWN event of the incident and the channel has been sent.
abbrev pub is_sent_down : (incident_id channel_id : ℕ) → NotificationOutbox → Bool
is_sent_down incident_id channel_id o = is_down_of incident_id channel_id o && is_sent o.status

abbrev pub HasSentDown : (incident_id channel_id : ℕ) → List NotificationOutbox → Type 0
HasSentDown incident_id channel_id rows = any (is_sent_down incident_id channel_id) rows ≡ true

Lives-is_sent_down :
    (i c : ℕ) (o p : NotificationOutbox)
    → Lives o p
    → is_sent_down i c o ≡ true
    → is_sent_down i c p ≡ true
Lives-is_sent_down i c o p h sent =
    ground (arith, h.same_incident, h.same_channel, h.same_type, h.stays_sent)

or_mono :
    (a b c d : Bool)
    → (a ≡ true → c ≡ true)
    → (b ≡ true → d ≡ true)
    → (a || b) ≡ true
    → (c || d) ≡ true
or_mono a b c d f g h = ground arith

pub HasSentDown-Lives :
    (i c : ℕ) (rows after : List NotificationOutbox)
    → EachLives rows after
    → HasSentDown i c rows
    → HasSentDown i c after
HasSentDown-Lives i c [] [] h sent = absurd cc
HasSentDown-Lives i c (o ∷ os) (p ∷ ps) (l, h) sent =
    or_mono (is_sent_down i c o) (any (is_sent_down i c) os) _ _ (Lives-is_sent_down i c o p l)
      (HasSentDown-Lives i c os ps h) sent
HasSentDown-Lives i c _ _ h sent = absurd h
