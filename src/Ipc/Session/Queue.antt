-- ===== src/Ipc/Session/Queue.antt =====
-- What the event queue of crates/wiiland-ipc/src/session.rs keeps: its bound, and its controls.
use wiiland.Prelude.{
  ℕ, suc, ◌≤◌, ◌≡◌, refl, sym, ap, ◌∙◌, arith, Bool, true, false, ◌==◌, List, [], ◌∷◌, ◌++◌, Option,
  none, some, ◌>>=◌, if◌then◌else◌, if_cases,
}
use wiiland.Prelude.Lists.{length, length-append, append-nil}
use wiiland.Prelude.Text.{Text}
use wiiland.Ipc.Session.{
  event_queue, SessionEvent, DeliveryPolicy, strict, latest_sensors, EventQueue, sensor_identity,
  same_identity, is_some, or_else, position, remove, add_one, replaced, Sent, sent,
  backlog_exceeded, push_back, make_room, send_full, send,
}

-- The events that are no sensor samples.
pub controls : List SessionEvent → List SessionEvent
controls [] = []
controls (e ∷ events) =
    let rest = controls events in if is_some (sensor_identity e) then rest else e ∷ rest

pub controls-append : (a b : List SessionEvent) → controls (a ++ b) ≡ controls a ++ controls b
unfolding controls
controls-append [] b = refl
controls-append (e ∷ a) b = by_test (is_some (sensor_identity e)) (controls-append a b)
  where
    by_test :
        (t : Bool)
        → controls (a ++ b) ≡ controls a ++ controls b
        → (if t then controls (a ++ b) else e ∷ controls (a ++ b))
          ≡ (if t then controls a else e ∷ controls a) ++ controls b
    by_test true h = h
    by_test false h = ap (λ l. e ∷ l) h

-- Removing at an index leaves the controls alone, and takes one event away.
abbrev Spares : List SessionEvent → Option ℕ → Type 0
Spares events none = Unit
Spares events (some i) =
    (controls (remove i events) ≡ controls events)
    × (suc (length (remove i events)) ≡ length events)

position-Spares :
    (p : SessionEvent → Bool) (events : List SessionEvent)
    → ((e : SessionEvent) → p e ≡ true → is_some (sensor_identity e) ≡ true)
    → Spares events (position p events)
unfolding controls
position-Spares p [] h = tt
position-Spares p (e ∷ events) h =
    if_cases (Spares (e ∷ events)) (p e) (some 0) _ (λ t. (rw (h e t, if◌then◌else◌) refl, refl))
      (λ f. later (position p events) (position-Spares p events h))
  where
    later : (o : Option ℕ) → Spares events o → Spares (e ∷ events) (o >>= λ i. some (suc i))
    later none s = tt
    later (some i) s = (rw (s.0) refl, omega (arith, s.1))

replaced-Spares :
    (events : List SessionEvent) (event : SessionEvent) → Spares events (replaced events event)
replaced-Spares events event =
    either _ _ (by_identity (sensor_identity event))
      (position-Spares (λ old. is_some (sensor_identity old)) events (λ e t. t))
  where
    either : (a b : Option ℕ) → Spares events a → Spares events b → Spares events (or_else a b)
    either none b h k = k
    either (some i) b h k = h

    known : (i : Text × ℕ) (o : Option (Text × ℕ)) → same_identity i o ≡ true → is_some o ≡ true
    known i none t = absurd cc
    known i (some j) t = refl

    by_identity :
        (o : Option (Text × ℕ))
        → Spares events (o >>= λ i. position (λ old. same_identity i (sensor_identity old)) events)
    by_identity none = tt
    by_identity (some i) =
        position-Spares (λ old. same_identity i (sensor_identity old)) events
          (λ e t. known i (sensor_identity e) t)

-- What a call of `send` promises.
abbrev pub Sends : EventQueue → SessionEvent → Sent → Type 0
Sends self event (sent next) =
    (length next.events ≤ event_queue)
    × (controls next.events ≡ controls (self.events ++ event ∷ []))
    × (next.policy ≡ self.policy)
    × (self.policy ≡ strict → next.events ≡ self.events ++ event ∷ [])
Sends self event (backlog_exceeded next limit) =
    (next ≡ self)
    × (limit ≡ event_queue)
    × (self.policy ≡ latest_sensors
        → controls (self.events ++ event ∷ []) ≡ self.events ++ event ∷ [])

no_position :
    (events : List SessionEvent)
    → position (λ old. is_some (sensor_identity old)) events ≡ none
    → controls events ≡ events
unfolding controls
no_position [] h = refl
no_position (e ∷ events) h =
    if_cases (λ o. o ≡ none → controls (e ∷ events) ≡ e ∷ events) (is_some (sensor_identity e))
      (some 0) _ (λ t n. absurd cc)
      (λ f n. rw (f, if◌then◌else◌) (ap (λ l. e ∷ l) (no_position events (inner _ n)))) h
  where
    inner : (o : Option ℕ) → (o >>= λ i. some (suc i)) ≡ none → o ≡ none
    inner none n = refl
    inner (some i) n = absurd cc

or_else-none : (a b : Option ℕ) → or_else a b ≡ none → b ≡ none
or_else-none none b h = h
or_else-none (some i) b h = absurd cc

push_back-Sends :
    (self next : EventQueue) (event : SessionEvent)
    → suc (length next.events) ≤ event_queue
    → controls next.events ≡ controls self.events
    → next.policy ≡ self.policy
    → (self.policy ≡ strict → next.events ≡ self.events)
    → Sends self event (push_back next event)
push_back-Sends self next event l c p s = (
  omega (arith, length-append next.events (event ∷ [])),
  controls-append next.events (event ∷ [])
      ∙ ap (λ l. l ++ controls (event ∷ [])) c
      ∙ sym (controls-append self.events (event ∷ [])),
  p,
  λ e. ap (λ l. l ++ event ∷ []) (s e),
)

lone_control :
    (event : SessionEvent)
    → is_some (sensor_identity event) ≡ false
    → controls (event ∷ []) ≡ event ∷ []
unfolding controls
lone_control event h = rw (h, if◌then◌else◌) refl

lone_sensor :
    (event : SessionEvent) → is_some (sensor_identity event) ≡ true → controls (event ∷ []) ≡ []
unfolding controls
lone_sensor event h = rw (h, if◌then◌else◌) refl

send_full-Sends :
    (policy : DeliveryPolicy) (self : EventQueue) (event : SessionEvent)
    → policy ≡ self.policy
    → length self.events ≡ event_queue
    → Sends self event (send_full policy self event)
send_full-Sends strict self event p l =
    if_cases (Sends self event) (length self.events == event_queue) _ _
      (λ t. (refl, refl, λ e. absurd cc)) (λ f. absurd (ground arith))
send_full-Sends latest_sensors self event p l =
    by_index (replaced self.events event) (replaced-Spares self.events event) refl
  where
    by_index :
        (o : Option ℕ)
        → Spares self.events o
        → replaced self.events event ≡ o
        → Sends self event (make_room self event o)
    by_index (some i) s e =
        if_cases (Sends self event) (length (remove i self.events) == event_queue) _ _
          (λ t. absurd (ground (arith, s.1)))
          (λ f.
            push_back-Sends self
              (record self { events = remove i self.events; coalesced = add_one self.coalesced })
              event (omega (arith, s.1)) s.0 refl (λ q. absurd cc))
    by_index none s e =
        if_cases (Sends self event) (is_some (sensor_identity event)) _ _
          (λ t. (
            omega arith,
            sym (
                controls-append self.events (event ∷ [])
                ∙ ap (λ l. controls self.events ++ l) (lone_sensor event t)
                ∙ append-nil (controls self.events)),
            refl,
            λ q. absurd cc,
          ))
          (λ f.
            if_cases (Sends self event) (length self.events == event_queue) _ _
              (λ t. (
                refl,
                refl,
                λ q.
                    controls-append self.events (event ∷ [])
                    ∙ ap (λ l. l ++ controls (event ∷ []))
                        (no_position self.events (or_else-none _ _ e))
                    ∙ ap (λ l. self.events ++ l) (lone_control event f),
              ))
              (λ g. absurd (ground arith)))

pub send-Sends :
    (self : EventQueue) (event : SessionEvent)
    → length self.events ≤ event_queue
    → Sends self event (send self event)
unfolding send
send-Sends self event l =
    if_cases (Sends self event) (length self.events == event_queue) _ _
      (λ e. send_full-Sends self.policy self event refl (ground arith))
      (λ e. push_back-Sends self self event (ground arith) refl refl (λ p. refl))
