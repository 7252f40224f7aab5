-- ===== src/Daemon/Bridge.antt =====
-- The bridge from a device to its engine and virtual devices, crates/wiilandd/src/bridge.rs.
pub mod Inputs
pub mod Interfaces
pub mod Written
use wiiland.Prelude.{
  ℕ, zero, suc, Bool, true, false, not, ◌==◌, same, List, [], ◌∷◌, ◌++◌, Option, none, some,
  if◌then◌else◌,
}
use wiiland.Prelude.Int.{ℤ}
use wiiland.Config.Types.{Config, Profile}
use wiiland.Hid.Model.{InterfaceMask, mask_all, meet, without, EventKind, watch, gone, Event}
use wiiland.Engine.State.{
  OutputDevice, gamepad, desktop, OutputAction, key, abs, rel, sync, EngineInput, reset,
  DeviceEngine, needs_gamepad, needs_desktop,
}
use wiiland.Engine
use wiiland.Daemon.Bridge.Inputs.{forwards_to_engine, engine_input}
use wiiland.Daemon.Bridge.Interfaces.{requested_interfaces, Iface, opens}

abbrev max_events_per_drain : ℕ
max_events_per_drain = 256

pub data BridgeAction : Type 0 where
  go_on is_gone : BridgeAction

-- A virtual device is there or not.
pub record BridgeDevice : Type 0 where
  pub profile : Profile
  pub gamepad : Bool
  pub desktop : Bool
  pub engine : DeviceEngine
  pub opened_ifaces : InterfaceMask
  pub pending_ifaces : InterfaceMask
  pub config : Config
  pub outputs_enabled : Bool
  pub capture : Bool

-- The errors of the kernel's virtual devices, when one is created or written to.
pub record Backend : Type 0 where
  pub create : OutputDevice → Option ℤ
  pub emit : OutputAction → Option ℤ

pub data Outcome {ℓ} (A : Type ℓ) : Type ℓ where
  done : A → Outcome A
  failed : ℤ → Outcome A

abbrev pub created : Bool → Option ℤ → Outcome Bool
created false e = done false
created true none = done true
created true (some e) = failed e

abbrev pub both_created : Outcome Bool → Outcome Bool → Outcome (Bool × Bool)
both_created (failed e) d = failed e
both_created (done g) (failed e) = failed e
both_created (done g) (done d) = done (g, d)

unfoldable pub create_outputs : Backend → Profile → Config → Bool → Outcome (Bool × Bool)
create_outputs backend profile config outputs_enabled =
    if not outputs_enabled
    then done (false, false)
    else both_created (created (needs_gamepad profile config) (backend.create gamepad))
        (created (needs_desktop profile config) (backend.create desktop))

abbrev pub target : OutputAction → OutputDevice
target (key d code value) = d
target (abs d code value) = d
target (rel d code value) = d
target (sync d) = d

abbrev pub has_output : BridgeDevice → OutputDevice → Bool
has_output self gamepad = self.gamepad
has_output self desktop = self.desktop

abbrev wrote : OutputAction → Option ℤ → List OutputAction × Option ℤ → List OutputAction × Option ℤ
wrote action none later = (action ∷ later.0, later.1)
wrote action (some e) later = ([], some e)

-- What is written to the virtual devices, until an error.
pub emit_actions : Backend → BridgeDevice → List OutputAction → List OutputAction × Option ℤ
emit_actions backend self [] = ([], none)
emit_actions backend self (action ∷ actions) =
    let later = emit_actions backend self actions in
    if has_output self (target action) then wrote action (backend.emit action) later else later

pub record Reply : Type 0 where
  pub bridge : BridgeDevice
  pub written : List OutputAction
  pub error : Option ℤ

pub process : Backend → BridgeDevice → EngineInput → Reply
unfolding emit_actions
process backend self input =
    let r = Engine.process self.engine input in
    let next = record self { engine = r.0 } in
    let w = emit_actions backend next r.1 in
    if not self.outputs_enabled
    then record { bridge = next; written = []; error = none }
    else record { bridge = next; written = w.0; error = w.1 }

-- `retry_open`, with the interface's answer.
abbrev opened_with : BridgeDevice → InterfaceMask × Option ℤ → Reply
opened_with self (opened, e) =
    let next = record self {
      opened_ifaces = opened;
      pending_ifaces = without self.pending_ifaces opened;
    } in
    record {
      bridge = next;
      written = [];
      error =
          (if meet opened (requested_interfaces self.profile self.config) == 0
            then opens e
            else none);
    }

retry_open : Iface → BridgeDevice → Reply
retry_open iface self =
    if self.pending_ifaces == 0
    then record { bridge = self; written = []; error = none }
    else opened_with self (iface.open_more self.pending_ifaces)

abbrev wanted : BridgeDevice → InterfaceMask
wanted self = if self.capture then mask_all else requested_interfaces self.profile self.config

unfoldable set_capture : Iface → BridgeDevice → Bool → Reply
set_capture iface self enabled =
    if same enabled self.capture
    then record { bridge = self; written = []; error = none }
    else (let changed = record self { capture = enabled } in
        let opened = iface.after_close (without iface.opened (wanted changed)) in
        retry_open iface (record changed {
          opened_ifaces = opened;
          pending_ifaces = without (wanted changed) opened;
        }))

abbrev recreated : BridgeDevice → Outcome (Bool × Bool) → BridgeDevice × Option ℤ
recreated self (done (g, d)) = (record self { gamepad = g; desktop = d }, none)
recreated self (failed e) = (record self { gamepad = false; desktop = false }, some e)

abbrev lost_outputs : Backend → BridgeDevice → BridgeDevice × Option ℤ
lost_outputs backend self =
    recreated (record self { engine = (Engine.process self.engine reset).0 })
      (create_outputs backend self.profile self.config self.outputs_enabled)

abbrev reopened : Iface → BridgeDevice × Option ℤ → Reply
reopened iface (self, some e) = record { bridge = self; written = []; error = some e }
reopened iface (self, none) = retry_open iface (record self {
  opened_ifaces = iface.opened;
  pending_ifaces = without (wanted self) iface.opened;
})

handle_watch : Backend → Iface → BridgeDevice → Reply
handle_watch backend iface self =
    let lost =
      meet (without self.opened_ifaces iface.opened)
        (requested_interfaces self.profile self.config) in
    reopened iface (if not (lost == 0) then lost_outputs backend self else (self, none))

abbrev pub forward : Backend → BridgeDevice → Option EngineInput → Reply
forward backend self none = record { bridge = self; written = []; error = none }
forward backend self (some input) = process backend self input

-- `handle_event` on what is neither a watch nor the end of the device.
abbrev pub handle_kind : Backend → BridgeDevice → EventKind → Reply
handle_kind backend self kind =
    let forwarded = forward backend self (engine_input kind) in
    if forwards_to_engine kind self.profile self.config
    then forwarded
    else record { bridge = self; written = []; error = none }

pub handle_event : Backend → Iface → BridgeDevice → EventKind → Reply × BridgeAction
unfolding handle_watch retry_open process
handle_event backend iface self gone =
    (record { bridge = self; written = []; error = none }, is_gone)
handle_event backend iface self watch = (handle_watch backend iface self, go_on)
handle_event backend iface self kind = (handle_kind backend self kind, go_on)

-- The device that `with_backend_outputs` makes of its parts.
pub assembled : Profile → Config → InterfaceMask → InterfaceMask → Bool × Bool → Bool → BridgeDevice
assembled profile config opened pending (g, d) outputs_enabled = record {
  profile = profile;
  gamepad = g;
  desktop = d;
  engine = wiiland.Engine.State.new config profile;
  opened_ifaces = opened;
  pending_ifaces = pending;
  config = config;
  outputs_enabled = outputs_enabled;
  capture = false;
}

-- What `dispatch` answers.
pub data Dispatch : Type 0 where
  event : EventKind → Dispatch
  would_block : Dispatch
  fails : ℤ → Dispatch

-- What a drain leaves: the device, what was written, and how it ended.
pub record Drained : Type 0 where
  pub bridge : BridgeDevice
  pub written : List OutputAction
  pub outcome : Outcome BridgeAction

abbrev pub after_event : (BridgeDevice → Drained) → Reply × BridgeAction → Drained
after_event again (reply, action) = by_error reply.error action
  where
    later : Drained
    later = again reply.bridge

    by_error : Option ℤ → BridgeAction → Drained
    by_error (some e) action = record {
      bridge = reply.bridge;
      written = reply.written;
      outcome = failed e;
    }
    by_error none is_gone = record {
      bridge = reply.bridge;
      written = reply.written;
      outcome = done is_gone;
    }
    by_error none go_on = record later { written = reply.written ++ later.written }

-- The loop of `drain_with`, with the events that are left to it and what `dispatch` answers; with no
-- further answer it blocks.
pub drain_loop : Backend → Iface → ℕ → List Dispatch → BridgeDevice → Drained
drain_loop backend iface zero answers self = record {
  bridge = self;
  written = [];
  outcome = done go_on;
}
drain_loop backend iface (suc n) [] self = record {
  bridge = self;
  written = [];
  outcome = done go_on;
}
drain_loop backend iface (suc n) (would_block ∷ answers) self = record {
  bridge = self;
  written = [];
  outcome = done go_on;
}
drain_loop backend iface (suc n) (fails e ∷ answers) self = record {
  bridge = self;
  written = [];
  outcome = failed e;
}
drain_loop backend iface (suc n) (event kind ∷ answers) self =
    after_event (drain_loop backend iface n answers) (handle_event backend iface self kind)

pub drain : Backend → Iface → List Dispatch → BridgeDevice → Drained
drain backend iface answers self = drain_loop backend iface max_events_per_drain answers self
