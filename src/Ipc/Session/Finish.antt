-- ===== src/Ipc/Session/Finish.antt =====
-- The completion of a session of crates/wiiland-ipc/src/session.rs: after its last event.
use wiiland.Prelude.{
  ℕ, zero, suc, ◌≤◌, ◌<◌, ◌≡◌, refl, sym, ap, ◌∙◌, arith, List, [], ◌∷◌, Option, none, some,
}
use wiiland.Prelude.Lists.{length}
use wiiland.Ipc.Session.{
  SessionEvent, EventQueue, Received, received, nothing, try_recv_queue, Channel, Session, try_recv,
  try_finish, or_else,
}

abbrev after_pending : Option SessionEvent → List SessionEvent → List SessionEvent
after_pending none events = events
after_pending (some e) events = e ∷ events

module _ {ℓ} {R : Type ℓ} where
  -- The events that the client has not received.
  abbrev pub waiting : Session R → List SessionEvent
  waiting self = after_pending self.pending_event self.events.events

  -- The result of the worker, once it has sent one.
  abbrev result_of : Session R → Option R
  result_of self = or_else self.pending_result self.finished.content

  abbrev got_first :
      Received SessionEvent → List SessionEvent × Option R → List SessionEvent × Option R
  got_first (received e) later = (e ∷ later.0, later.1)
  got_first (nothing e) later = later

  -- A client that asks for the result, and for an event as long as there is none.
  abbrev next_round :
      (Session R → List SessionEvent × Option R)
      → Session R × Received R
      → List SessionEvent × Option R
  next_round more (self, received r) = ([], some r)
  next_round more (self, nothing e) = got_first (try_recv self).1 (more (try_recv self).0)

  pub poll : ℕ → Session R → List SessionEvent × Option R
  poll zero self = ([], none)
  poll (suc n) self = next_round (poll n) (try_finish self)

  -- What one call of `try_finish` promises.
  abbrev Finishes : Session R → Session R × Received R → Type ℓ
  Finishes self (next, received r) =
      (waiting self ≡ []) × (waiting next ≡ []) × (result_of self ≡ some r)
  Finishes self (next, nothing e) =
      (waiting next ≡ waiting self)
      × (result_of next ≡ result_of self)
      × ((r : R) → result_of self ≡ some r → 0 < length (waiting self))

  try_finish-Finishes : (self : Session R) → Finishes self (try_finish self)
  unfolding try_finish try_recv_queue
  try_finish-Finishes self =
      by_fields self.events self.events.events self.finished self.finished.content
        self.pending_event self.pending_result
    where
      by_fields :
          (queue : EventQueue) (events : List SessionEvent) (finished : Channel R)
          (content : Option R) (pending_event : Option SessionEvent) (pending_result : Option R)
          → Finishes
              (record {
                events = record queue { events = events };
                finished = record finished { content = content };
                pending_event = pending_event;
                pending_result = pending_result;
              })
              (try_finish (record {
                events = record queue { events = events };
                finished = record finished { content = content };
                pending_event = pending_event;
                pending_result = pending_result;
              }))
      by_fields queue events finished none pending none = (refl, refl, λ r h. absurd cc)
      by_fields queue [] finished (some r) none none = (refl, refl, refl)
      by_fields queue (e ∷ events) finished (some r) none none = (refl, refl, λ r h. omega arith)
      by_fields queue events finished (some r) (some e) none = (refl, refl, λ r h. omega arith)
      by_fields queue [] finished content none (some r) = (refl, refl, refl)
      by_fields queue (e ∷ events) finished content none (some r) = (refl, refl, λ r h. omega arith)
      by_fields queue events finished content (some e) (some r) = (refl, refl, λ r h. omega arith)

  -- What one call of `try_recv` promises.
  abbrev Takes : Session R → Session R × Received SessionEvent → Type ℓ
  Takes self (next, received e) =
      (waiting self ≡ e ∷ waiting next) × (result_of next ≡ result_of self)
  Takes self (next, nothing e) = (waiting self ≡ []) × (next ≡ self)

  try_recv-Takes : (self : Session R) → Takes self (try_recv self)
  unfolding try_recv try_recv_queue
  try_recv-Takes self =
      by_fields self.events self.events.events self.finished self.pending_event self.pending_result
    where
      by_fields :
          (queue : EventQueue) (events : List SessionEvent) (finished : Channel R)
          (pending_event : Option SessionEvent) (pending_result : Option R)
          → Takes
              (record {
                events = record queue { events = events };
                finished = finished;
                pending_event = pending_event;
                pending_result = pending_result;
              })
              (try_recv (record {
                events = record queue { events = events };
                finished = finished;
                pending_event = pending_event;
                pending_result = pending_result;
              }))
      by_fields queue events finished (some e) result = (refl, refl)
      by_fields queue [] finished none result = (refl, refl)
      by_fields queue (e ∷ events) finished none result = (refl, refl)

  -- When the worker has sent its result, a client that asks for it at each round still receives
  -- every event that waits, in order, and then the result, within one round more than there are
  -- events.
  pub poll-waiting :
      (n : ℕ) (self : Session R) (r : R)
      → result_of self ≡ some r
      → length (waiting self) ≤ n
      → poll (suc n) self ≡ (waiting self, some r)
  unfolding poll
  poll-waiting zero self r h l =
      by_finish (try_finish self).0 (try_finish self).1 (try_finish-Finishes self)
    where
      by_finish :
          (next : Session R) (o : Received R)
          → Finishes self (next, o)
          → next_round (poll 0) (next, o) ≡ (waiting self, some r)
      by_finish next (received s) f = rw (f.0) (ap (λ t. ([], t)) (sym f.2 ∙ h))
      by_finish next (nothing e) f = absurd (omega (arith, f.2 r h))
  poll-waiting (suc n) self r h l =
      by_finish (try_finish self).0 (try_finish self).1 (try_finish-Finishes self)
        (λ next g k. poll-waiting n next r g k)
    where
      by_recv :
          (next later : Session R) (o : Received SessionEvent)
          → Takes next (later, o)
          → waiting next ≡ waiting self
          → result_of next ≡ some r
          → 0 < length (waiting self)
          → ((s : Session R)
              → result_of s ≡ some r
              → length (waiting s) ≤ n
              → poll (suc n) s ≡ (waiting s, some r))
          → got_first o (poll (suc n) later) ≡ (waiting self, some r)
      by_recv next later (received e) t w g p more =
          ap (got_first (received e))
            (more later (t.1 ∙ g) (omega (arith, l, ap length (sym w ∙ t.0))))
          ∙ ap (λ events. (events, some r)) (sym t.0 ∙ w)
      by_recv next later (nothing e) t w g p more =
          absurd (omega (arith, p, ap length (sym w ∙ t.0)))

      by_finish :
          (next : Session R) (o : Received R)
          → Finishes self (next, o)
          → ((s : Session R)
              → result_of s ≡ some r
              → length (waiting s) ≤ n
              → poll (suc n) s ≡ (waiting s, some r))
          → next_round (poll (suc n)) (next, o) ≡ (waiting self, some r)
      by_finish next (received s) f more = rw (f.0) (ap (λ t. ([], t)) (sym f.2 ∙ h))
      by_finish next (nothing e) f more =
          by_recv next (try_recv next).0 (try_recv next).1 (try_recv-Takes next) f.0 (f.1 ∙ h)
            (f.2 r h) more
