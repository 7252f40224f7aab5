-- ===== src/Daemon/Server/Greeted.antt =====
-- No history of a connection of crates/wiilandd/src/ipc makes it negotiated without a hello.
use mathlib.Core.List.{Memᴰ}
use wiiland.Prelude.{
  ℕ, Bool, true, false, not, ◌&&◌, ◌||◌, ◌==◌, ltb, List, [], ◌∷◌, ◌++◌, ◌≡◌, ◌⊎◌, inl, inr,
  Bool-cases, if_both,
}
use wiiland.Prelude.Lists.{length}
use wiiland.Ipc.Frame.{Result, ok, err}
use wiiland.Ipc.Protocol.{
  ResponseResult, hello_done, pong, capture_stopped, subscribed, unsubscribed, diagnostics_report,
  config_text, capture_started, status_report, device_list, Notification,
}
use wiiland.Daemon.Client.{
  max_queued_bytes, saturating_add, Client, new, contains_path, Write, write_ready,
}
use wiiland.Daemon.Client.Requests.{Services}
use wiiland.Daemon.Client.Reads.{Read, read_client}
use wiiland.Daemon.Client.Greeting.{
  HasHello, IsGreeted, new-IsGreeted, queue-IsGreeted, queue_response-IsGreeted,
}
use wiiland.Daemon.Client.Greeted.{chunks, read_client-IsGreeted, write_ready-IsGreeted}
use wiiland.Daemon.Server.{
  is_open, drained, over_limit, captured, complete, receives, deliver, notify, after_read,
  after_write, serve_ready,
}
use wiiland.Daemon.Server.Acts.{Act, ready, completed, taken, published, act, act_all, arrivals}

in_front {ℓ} : {A : Type ℓ} {a : A} (xs ys : List A) → Memᴰ a xs → Memᴰ a (xs ++ ys)
in_front [] ys m = elim m [ ]
in_front (x ∷ xs) ys (Memᴰ.head e) = Memᴰ.head e
in_front (x ∷ xs) ys (Memᴰ.tail m) = Memᴰ.tail (in_front xs ys m)

behind {ℓ} : {A : Type ℓ} {a : A} (xs ys : List A) → Memᴰ a ys → Memᴰ a (xs ++ ys)
behind [] ys m = m
behind (x ∷ xs) ys m = Memᴰ.tail (behind xs ys m)

module _ (services : Services) (texts : List (List ℕ)) where
  abbrev Greeted : Client → Type 0
  Greeted = IsGreeted services texts

  captured-Greeted :
      (self : Client) (result : ResponseResult)
      → Greeted self
      → Greeted (captured services self result)
  captured-Greeted self (capture_started info) g =
      if_both Greeted (contains_path self.capture info.syspath) self _ g g
  captured-Greeted self capture_stopped g = g
  captured-Greeted self pong g = g
  captured-Greeted self subscribed g = g
  captured-Greeted self unsubscribed g = g
  captured-Greeted self (hello_done major minor version) g = g
  captured-Greeted self (diagnostics_report report) g = g
  captured-Greeted self (config_text text) g = g
  captured-Greeted self (status_report report) g = g
  captured-Greeted self (device_list devices) g = g

  complete-Greeted :
      (self : Client) (id : ℕ) (result : Result ResponseResult)
      → Greeted self
      → Greeted (complete services self id result)
  unfolding complete
  complete-Greeted self id (err e) g = queue-IsGreeted services texts self _ g
  complete-Greeted self id (ok result) g =
      if_both Greeted (over_limit services self result) _ _
        (queue-IsGreeted services texts self _ g)
        (queue_response-IsGreeted services texts (captured services self result) id result
          (captured-Greeted self result g))

  notify-Greeted :
      (self : Client) (note : Notification) (frame : List ℕ)
      → Greeted self
      → Greeted (notify services note frame self)
  notify-Greeted self note frame g =
      if_both Greeted (receives services note self) (deliver services frame self) self
        (if_both Greeted (ltb max_queued_bytes (saturating_add self.queued_bytes (length frame))) _
          _ g g)
        g

  drained-Greeted : (self : Client) → Greeted self → Greeted (drained self)
  drained-Greeted self g = if_both Greeted (is_open self) (record self { commands = [] }) self g g

  serve_ready-Greeted :
      (self : Client) (readable writable : Bool) (reads : List Read) (writes : List Write)
      → ((text : List ℕ) → Memᴰ text (chunks reads) → Memᴰ text texts)
      → Greeted self
      → Greeted (serve_ready services readable writable reads writes self).0
  unfolding serve_ready
  serve_ready-Greeted self readable writable reads writes m g =
      written (after_read services readable reads self).0
        (after_read services readable reads self).1
        (if_both (λ (r : Client × Bool). Greeted r.0)
          (is_open self && (readable || not (length self.pending_frames == 0)))
          (read_client services reads self) (self, true)
          (read_client-IsGreeted services texts reads self m g) g)
    where
      written :
          (next : Client) (kept : Bool)
          → Greeted next
          → Greeted (after_write services writable writes (next, kept)).0
      written next kept n =
          if_both (λ (r : Client × Bool). Greeted r.0)
            (kept && (not next.immediate_close && (writable || not (length next.output == 0))))
            (write_ready writes next) (next, kept && not next.immediate_close)
            (write_ready-IsGreeted services texts writes next n) n

  act_all-Greeted :
      (self : Client) (acts : List (Act services))
      → ((text : List ℕ) → Memᴰ text (arrivals services acts) → Memᴰ text texts)
      → Greeted self
      → Greeted (act_all services self acts)
  unfolding act act_all
  act_all-Greeted self [] m g = g
  act_all-Greeted self (ready readable writable reads writes ∷ acts) m g =
      act_all-Greeted (serve_ready services readable writable reads writes self).0 acts
        (λ t i. m t (behind (chunks reads) (arrivals services acts) i))
        (serve_ready-Greeted self readable writable reads writes
          (λ t i. m t (in_front (chunks reads) (arrivals services acts) i)) g)
  act_all-Greeted self (completed id result ∷ acts) m g =
      act_all-Greeted (complete services self id result) acts m (complete-Greeted self id result g)
  act_all-Greeted self (taken ∷ acts) m g =
      act_all-Greeted (drained self) acts m (drained-Greeted self g)
  act_all-Greeted self (published note frame ∷ acts) m g =
      act_all-Greeted (notify services note frame self) acts m (notify-Greeted self note frame g)

-- The answer of a history: some hello arrived, or the connection is not negotiated.
pub hello_or_not :
    (services : Services) (acts : List (Act services))
    → HasHello services (arrivals services acts) ⊎ ((act_all services new acts).negotiated ≡ false)
hello_or_not services acts = elim (Bool-cases (act_all services new acts).negotiated) [
  | inl e ↦ inl (g.greeted e)
  | inr e ↦ inr e
]
  where
    g : IsGreeted services (arrivals services acts) (act_all services new acts)
    g =
        act_all-Greeted services (arrivals services acts) new acts (λ t i. i)
          (new-IsGreeted services (arrivals services acts))
