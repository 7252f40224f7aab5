-- ===== src/Ipc/Session.antt =====
-- The bounded event queue and the completion of crates/wiiland-ipc/src/session.rs.
pub mod Queue
pub mod Runs
pub mod Finish
pub mod Select
use wiiland.Prelude.{
  ℕ, zero, suc, ◌+◌, ◌%◌, ◌^◌, Bool, true, false, ◌&&◌, ◌==◌, List, [], ◌∷◌, ◌++◌, Option, none,
  some, ◌>>=◌, if◌then◌else◌,
}
use wiiland.Prelude.Lists.{length}
use wiiland.Prelude.Text.{Text, eq_text}
use wiiland.Ipc.Protocol.{
  Status, DeviceInfo, InputPayload, key, pro_controller_key, classic_controller_key, nunchuk_key,
  drums_key, guitar_key, accel, motion_plus, ir, balance_board, pro_controller_move,
  classic_controller_move, nunchuk_move, drums_move, guitar_move, watch, gone_away,
  unsupported_payload, unknown, event_code, Notification, input,
}

abbrev pub event_queue : ℕ
event_queue = 64

pub data SessionEvent : Type 0 where
  connected : Status → List DeviceInfo → SessionEvent
  notification : Notification → SessionEvent

pub data DeliveryPolicy : Type 0 where
  strict latest_sensors : DeliveryPolicy

-- The queue: the event at its front stands first.
pub record EventQueue : Type 0 where
  pub events : List SessionEvent
  pub policy : DeliveryPolicy
  pub coalesced : ℕ
  pub closed : Bool

unfoldable pub new : DeliveryPolicy → EventQueue
new policy = record { events = []; policy = policy; coalesced = 0; closed = false }

abbrev is_sensor : InputPayload → Bool
is_sensor (accel _) = true
is_sensor (ir _) = true
is_sensor (balance_board _) = true
is_sensor (motion_plus _) = true
is_sensor (pro_controller_move _) = true
is_sensor (classic_controller_move _) = true
is_sensor (nunchuk_move _) = true
is_sensor (drums_move _) = true
is_sensor (guitar_move _) = true
is_sensor _ = false

-- The device and the kind of a sensor sample.
unfoldable pub sensor_identity : SessionEvent → Option (Text × ℕ)
sensor_identity (notification (input sequence syspath timestamp payload)) =
    if is_sensor payload then some (syspath, event_code payload) else none
sensor_identity _ = none

abbrev pub same_identity : Text × ℕ → Option (Text × ℕ) → Bool
same_identity i none = false
same_identity i (some j) = eq_text j.0 i.0 && (j.1 == i.1)

abbrev pub is_some {ℓ} : {A : Type ℓ} → Option A → Bool
is_some none = false
is_some (some a) = true

abbrev pub or_else {ℓ} : {A : Type ℓ} → Option A → Option A → Option A
or_else none b = b
or_else (some a) b = some a

abbrev pub position : (SessionEvent → Bool) → List SessionEvent → Option ℕ
position p [] = none
position p (e ∷ events) =
    let later = position p events >>= λ i. some (suc i) in if p e then some 0 else later

abbrev pub remove : ℕ → List SessionEvent → List SessionEvent
remove i [] = []
remove zero (e ∷ events) = events
remove (suc i) (e ∷ events) = e ∷ remove i events

-- `AtomicU64::fetch_add`.
abbrev pub add_one : ℕ → ℕ
add_one n = (n + 1) % 2 ^ 64

-- The index of the sample that makes room for an event, when a visualization's queue is full.
abbrev pub replaced : List SessionEvent → SessionEvent → Option ℕ
replaced events event =
    or_else
      (sensor_identity event >>= λ i.
        position (λ old. same_identity i (sensor_identity old)) events)
      (position (λ old. is_some (sensor_identity old)) events)

pub data Sent : Type 0 where
  sent : EventQueue → Sent
  backlog_exceeded : EventQueue → ℕ → Sent

abbrev pub push_back : EventQueue → SessionEvent → Sent
push_back self event = sent (record self { events = self.events ++ event ∷ [] })

abbrev push_when_room : EventQueue → SessionEvent → Sent
push_when_room self event =
    if length self.events == event_queue
    then backlog_exceeded self event_queue
    else push_back self event

-- What a full queue of a visualization does.
abbrev pub make_room : EventQueue → SessionEvent → Option ℕ → Sent
make_room self event (some index) =
    push_when_room
      (record self { events = remove index self.events; coalesced = add_one self.coalesced }) event
make_room self event none =
    if is_some (sensor_identity event)
    then sent (record self { coalesced = add_one self.coalesced })
    else push_when_room self event

abbrev pub send_full : DeliveryPolicy → EventQueue → SessionEvent → Sent
send_full strict self event = push_when_room self event
send_full latest_sensors self event = make_room self event (replaced self.events event)

unfoldable pub send : EventQueue → SessionEvent → Sent
send self event =
    if length self.events == event_queue
    then send_full self.policy self event
    else push_back self event

pub data TryRecvError : Type 0 where
  empty disconnected : TryRecvError

pub data Received {ℓ} (A : Type ℓ) : Type ℓ where
  received : A → Received A
  nothing : TryRecvError → Received A

abbrev pub pop_front : EventQueue → List SessionEvent → EventQueue × Received SessionEvent
pop_front self [] = (self, nothing (if self.closed then disconnected else empty))
pop_front self (e ∷ events) = (record self { events = events }, received e)

unfoldable pub try_recv_queue : EventQueue → EventQueue × Received SessionEvent
try_recv_queue self = pop_front self self.events

-- A `sync_channel` of one result, and whether its sender still exists.
pub record Channel {ℓ} (R : Type ℓ) : Type ℓ where
  pub content : Option R
  pub connected : Bool

abbrev recv_channel {ℓ} : {R : Type ℓ} → Channel R → Option R → Channel R × Received R
recv_channel self none = (self, nothing (if self.connected then empty else disconnected))
recv_channel self (some r) = (record self { content = none }, received r)

pub record Session {ℓ} (R : Type ℓ) : Type ℓ where
  pub events : EventQueue
  pub finished : Channel R
  pub pending_event : Option SessionEvent
  pub pending_result : Option R

module _ {ℓ} {R : Type ℓ} where
  abbrev recv_pending : Session R → Option SessionEvent → Session R × Received SessionEvent
  recv_pending self (some e) = (record self { pending_event = none }, received e)
  recv_pending self none = let r = try_recv_queue self.events in (record self { events = r.0 }, r.1)

  pub try_recv : Session R → Session R × Received SessionEvent
  unfolding try_recv_queue
  try_recv self = recv_pending self self.pending_event

  -- The result that was put back, or the one in the channel.
  abbrev take_result : Session R → Option R → Session R × Received R
  take_result self (some r) = (record self { pending_result = none }, received r)
  take_result self none =
      let c = recv_channel self.finished self.finished.content in
      (record self { finished = c.0 }, c.1)

  abbrev after_event : Session R → R → EventQueue × Received SessionEvent → Session R × Received R
  after_event self result (queue, received e) = (
    record self { events = queue; pending_event = some e; pending_result = some result },
    nothing empty,
  )
  after_event self result (queue, nothing e) = (record self { events = queue }, received result)

  abbrev finish_with : Option SessionEvent → Session R × Received R → Session R × Received R
  finish_with pending (self, nothing e) = (self, nothing e)
  finish_with (some e) (self, received result) =
      (record self { pending_result = some result }, nothing empty)
  finish_with none (self, received result) = after_event self result (try_recv_queue self.events)

  pub try_finish : Session R → Session R × Received R
  unfolding try_recv_queue
  try_finish self = finish_with self.pending_event (take_result self self.pending_result)
