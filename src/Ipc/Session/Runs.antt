-- ===== src/Ipc/Session/Runs.antt =====
-- Runs of the event queue of crates/wiiland-ipc/src/session.rs, from the worker to the client.
use wiiland.Prelude.{
  ◌≤◌, ◌≡◌, refl, sym, ap, subst, ◌∙◌, arith, List, [], ◌∷◌, ◌++◌, Option, none, some, ◌>>=◌,
}
use wiiland.Prelude.Lists.{length, append-nil, append_assoc}
use wiiland.Ipc.Session.{
  event_queue, SessionEvent, DeliveryPolicy, strict, latest_sensors, EventQueue, new, Sent, sent,
  backlog_exceeded, send, Received, received, nothing, pop_front, try_recv_queue,
}
use wiiland.Ipc.Session.Queue.{controls, controls-append, Sends, send-Sends}

-- The calls on a queue: the worker's `send` and the client's `try_recv`.
pub data Step : Type 0 where
  put : SessionEvent → Step
  take : Step

-- The queue with what the client has received; a run ends at a backlog that is exceeded.
abbrev after_send : List SessionEvent → Sent → Option (EventQueue × List SessionEvent)
after_send got (sent next) = some (next, got)
after_send got (backlog_exceeded next limit) = none

abbrev got_with : List SessionEvent → Received SessionEvent → List SessionEvent
got_with got (received e) = got ++ e ∷ []
got_with got (nothing e) = got

unfoldable pub run :
    EventQueue → List SessionEvent → List Step → Option (EventQueue × List SessionEvent)
run self got [] = some (self, got)
run self got (put event ∷ steps) = after_send got (send self event) >>= λ s. run s.0 s.1 steps
run self got (take ∷ steps) = let r = try_recv_queue self in run r.0 (got_with got r.1) steps

abbrev pub all_sent : List Step → List SessionEvent
all_sent [] = []
all_sent (put e ∷ steps) = e ∷ all_sent steps
all_sent (take ∷ steps) = all_sent steps

-- The queue is bounded, and what was received and what waits are what was sent, samples aside.
record Kept (policy : DeliveryPolicy) (past : List SessionEvent) (self : EventQueue)
    (got : List SessionEvent) : Type 0 where
  pub same : self.policy ≡ policy
  pub bound : length self.events ≤ event_queue
  pub order : controls (got ++ self.events) ≡ controls past
  pub exact : policy ≡ strict → got ++ self.events ≡ past

abbrev AllKept :
    DeliveryPolicy → List SessionEvent → Option (EventQueue × List SessionEvent) → Type 0
AllKept policy past none = Unit
AllKept policy past (some s) = Kept policy past s.0 s.1

put-Kept :
    (policy : DeliveryPolicy) (past : List SessionEvent) (self next : EventQueue)
    (got : List SessionEvent) (event : SessionEvent)
    → Kept policy past self got
    → Sends self event (sent next)
    → Kept policy (past ++ event ∷ []) next got
put-Kept policy past self next got event k s = record {
  same = s.2 ∙ k.same;
  bound = s.0;
  order =
      controls-append got next.events
      ∙ ap (λ l. controls got ++ l) s.1
      ∙ sym (controls-append got (self.events ++ event ∷ []))
      ∙ ap controls (sym (append_assoc got self.events (event ∷ [])))
      ∙ controls-append (got ++ self.events) (event ∷ [])
      ∙ ap (λ l. l ++ controls (event ∷ [])) k.order
      ∙ sym (controls-append past (event ∷ []));
  exact = λ e.
      ap (λ l. got ++ l) (s.3 (k.same ∙ e))
      ∙ sym (append_assoc got self.events (event ∷ []))
      ∙ ap (λ l. l ++ event ∷ []) (k.exact e);
}

take-Kept :
    (policy : DeliveryPolicy) (past : List SessionEvent) (self : EventQueue)
    (got : List SessionEvent)
    → Kept policy past self got
    → Kept policy past (try_recv_queue self).0 (got_with got (try_recv_queue self).1)
unfolding try_recv_queue
take-Kept policy past self got k = by_events self.events refl
  where
    by_events :
        (events : List SessionEvent)
        → self.events ≡ events
        → Kept policy past (pop_front self events).0 (got_with got (pop_front self events).1)
    by_events [] e = k
    by_events (front ∷ events) e =
        let moved : (got ++ front ∷ []) ++ events ≡ got ++ self.events =
          append_assoc got (front ∷ []) events ∙ ap (λ l. got ++ l) (sym e) in
        record {
          same = k.same;
          bound = omega (arith, k.bound, ap length e);
          order = ap controls moved ∙ k.order;
          exact = λ s. moved ∙ k.exact s;
        }

run-AllKept :
    (policy : DeliveryPolicy) (past : List SessionEvent) (self : EventQueue)
    (got : List SessionEvent) (steps : List Step)
    → Kept policy past self got
    → AllKept policy (past ++ all_sent steps) (run self got steps)
unfolding run
run-AllKept policy past self got [] k =
    subst (λ l. Kept policy l self got) (sym (append-nil past)) k
run-AllKept policy past self got (take ∷ steps) k =
    run-AllKept policy past (try_recv_queue self).0 (got_with got (try_recv_queue self).1) steps
      (take-Kept policy past self got k)
run-AllKept policy past self got (put event ∷ steps) k =
    by_result (send self event) (send-Sends self event k.bound)
      (λ next n. run-AllKept policy (past ++ event ∷ []) next got steps n)
  where
    by_result :
        (r : Sent)
        → Sends self event r
        → ((next : EventQueue)
            → Kept policy (past ++ event ∷ []) next got
            → AllKept policy ((past ++ event ∷ []) ++ all_sent steps) (run next got steps))
        → AllKept policy
            (past ++ event ∷ all_sent steps)
            (after_send got r >>= λ s. run s.0 s.1 steps)
    by_result (sent next) s more =
        subst (λ l. AllKept policy l (run next got steps))
          (append_assoc past (event ∷ []) (all_sent steps))
          (more next (put-Kept policy past self next got event k s))
    by_result (backlog_exceeded next limit) s more = tt

-- What a policy keeps of the events: all, or all but the sensor samples.
pub preserved : DeliveryPolicy → List SessionEvent → List SessionEvent
preserved strict events = events
preserved latest_sensors events = controls events

-- In every run of a new queue, with sends and receives in any order and no backlog exceeded, at most
-- 64 events wait; and the events that the policy keeps, which are all under the strict one and all
-- but the sensor samples for a visualization, are received or still wait exactly as they were sent,
-- none lost and none out of order.
pub new-run :
    (policy : DeliveryPolicy) (steps : List Step) (self : EventQueue) (got : List SessionEvent)
    → run (new policy) [] steps ≡ some (self, got)
    → (length self.events ≤ event_queue)
      × (preserved policy (got ++ self.events) ≡ preserved policy (all_sent steps))
unfolding new preserved
new-run policy steps self got h = (k.bound, by_policy policy k)
  where
    k : Kept policy (all_sent steps) self got
    k = subst (AllKept policy (all_sent steps)) h (
        run-AllKept policy [] (new policy) [] steps
          (record { same = refl; bound = omega arith; order = refl; exact = λ e. refl }))

    by_policy :
        (p : DeliveryPolicy)
        → Kept p (all_sent steps) self got
        → preserved p (got ++ self.events) ≡ preserved p (all_sent steps)
    by_policy strict k = k.exact refl
    by_policy latest_sensors k = k.order
