-- ===== src/Daemon/Bridge/Written.antt =====
-- What a drain of crates/wiilandd/src/bridge.rs writes to the virtual devices.
use wiiland.Prelude.{
  ℕ, zero, suc, ◌≤◌, ◌≡◌, refl, ap, arith, Bool, true, false, List, [], ◌∷◌, ◌++◌, Option, none,
  some, map, if◌then◌else◌,
}
use wiiland.Prelude.Lists.{length, All}
use wiiland.Prelude.Int.{ℤ}
use wiiland.Config.Types.{Config, Profile}
use wiiland.Hid.Model.{
  InterfaceMask, EventKind, key, pro_controller_key, classic_controller_key, nunchuk_key, drums_key,
  guitar_key, accel_move, motion_plus_move, ir_move, balance_board_move, pro_controller_move,
  classic_controller_move, nunchuk_move, drums_move, guitar_move, watch, gone, unknown,
}
use wiiland.Engine.State.{
  gamepad, desktop, OutputAction, key, abs, rel, sync, EngineInput, DeviceEngine, new,
  needs_gamepad, needs_desktop,
}
use wiiland.Engine
use wiiland.Engine.Routing.{run, new-Routed}
use wiiland.Engine.Routing.Outputs.{IsRouted, Routed}
use wiiland.Daemon.Bridge.Inputs.{forwards_to_engine, engine_input}
use wiiland.Daemon.Bridge.Interfaces.{Iface}
use wiiland.Daemon.Bridge.{
  Backend, done, created, both_created, create_outputs, BridgeDevice, go_on, target, has_output,
  emit_actions, process, forward, handle_kind, handle_event, assembled, event, after_event,
  drain_loop, drain,
}

-- A report of the device, and neither its end nor a change of its interfaces.
unfoldable pub is_report : EventKind → Bool
is_report watch = false
is_report gone = false
is_report _ = true

abbrev chosen : Profile → Config → EventKind → Option EngineInput
chosen profile config kind =
    if forwards_to_engine kind profile config then engine_input kind else none

abbrev onto : Option EngineInput → List EngineInput → List EngineInput
onto none inputs = inputs
onto (some input) inputs = input ∷ inputs

-- The inputs of the engine: the reports of the interfaces that the profile asks for.
pub forwarded : Profile → Config → List EventKind → List EngineInput
forwarded profile config [] = []
forwarded profile config (kind ∷ kinds) =
    onto (chosen profile config kind) (forwarded profile config kinds)

All-left {ℓ κ} : {A : Type ℓ} (P : A → Type κ) (xs ys : List A) → All P (xs ++ ys) → All P xs
All-left P [] ys h = tt
All-left P (x ∷ xs) ys h = (h.0, All-left P xs ys h.1)

All-right {ℓ κ} : {A : Type ℓ} (P : A → Type κ) (xs ys : List A) → All P (xs ++ ys) → All P ys
All-right P [] ys h = h
All-right P (x ∷ xs) ys h = All-right P xs ys h.1

module _ (backend : Backend) (iface : Iface) (profile : Profile) (config : Config)
    (opened pending : InterfaceMask) where
  -- The device with its outputs, and an engine.
  abbrev ready : DeviceEngine → BridgeDevice
  ready engine = record {
    profile = profile;
    gamepad = needs_gamepad profile config;
    desktop = needs_desktop profile config;
    engine = engine;
    opened_ifaces = opened;
    pending_ifaces = pending;
    config = config;
    outputs_enabled = true;
    capture = false;
  }

  routed-has_output :
      (engine : DeviceEngine) (action : OutputAction)
      → IsRouted profile config action
      → has_output (ready engine) (target action) ≡ true
  routed-has_output engine (key gamepad code value) h = h
  routed-has_output engine (key desktop code value) h = h
  routed-has_output engine (abs gamepad code value) h = h
  routed-has_output engine (abs desktop code value) h = h
  routed-has_output engine (rel gamepad code value) h = h
  routed-has_output engine (rel desktop code value) h = h
  routed-has_output engine (sync gamepad) h = h
  routed-has_output engine (sync desktop) h = h

  emit_actions-all :
      (engine : DeviceEngine) (actions : List OutputAction)
      → ((a : OutputAction) → backend.emit a ≡ none)
      → Routed profile config actions
      → emit_actions backend (ready engine) actions ≡ (actions, none)
  unfolding emit_actions
  emit_actions-all engine [] w h = refl
  emit_actions-all engine (action ∷ actions) w h =
      rw (routed-has_output engine action h.0, if◌then◌else◌)
        (rw (w action) (rw (emit_actions-all engine actions w h.1) refl))

  process-ready :
      (engine : DeviceEngine) (input : EngineInput)
      → ((a : OutputAction) → backend.emit a ≡ none)
      → Routed profile config (Engine.process engine input).1
      → process backend (ready engine) input ≡ record {
        bridge = ready (Engine.process engine input).0;
        written = (Engine.process engine input).1;
        error = none;
      }
  unfolding process
  process-ready engine input w h =
      ap
        (λ (r : List OutputAction × Option ℤ). record {
          bridge = ready (Engine.process engine input).0;
          written = r.0;
          error = r.1;
        })
        (emit_actions-all (Engine.process engine input).0 (Engine.process engine input).1 w h)

  handle_event-report :
      (self : BridgeDevice) (kind : EventKind)
      → is_report kind ≡ true
      → handle_event backend iface self kind ≡ (handle_kind backend self kind, go_on)
  unfolding is_report handle_event
  handle_event-report self (key e) h = refl
  handle_event-report self (pro_controller_key e) h = refl
  handle_event-report self (classic_controller_key e) h = refl
  handle_event-report self (nunchuk_key e) h = refl
  handle_event-report self (drums_key e) h = refl
  handle_event-report self (guitar_key e) h = refl
  handle_event-report self (accel_move a) h = refl
  handle_event-report self (motion_plus_move a) h = refl
  handle_event-report self (ir_move slots) h = refl
  handle_event-report self (balance_board_move slots) h = refl
  handle_event-report self (pro_controller_move slots) h = refl
  handle_event-report self (classic_controller_move slots) h = refl
  handle_event-report self (nunchuk_move slots) h = refl
  handle_event-report self (drums_move slots) h = refl
  handle_event-report self (guitar_move slots) h = refl
  handle_event-report self (unknown n) h = refl
  handle_event-report self watch h = absurd cc
  handle_event-report self gone h = absurd cc

  handle_kind-chosen :
      (engine : DeviceEngine) (kind : EventKind)
      → handle_kind backend (ready engine) kind
        ≡ forward backend (ready engine) (chosen profile config kind)
  handle_kind-chosen engine kind = by_test (forwards_to_engine kind profile config)
    where
      by_test :
          (b : Bool)
          → (if b
              then forward backend (ready engine) (engine_input kind)
              else record { bridge = ready engine; written = []; error = none })
            ≡ forward backend (ready engine) (if b then engine_input kind else none)
      by_test true = refl
      by_test false = refl

  drain_loop-run :
      (n : ℕ) (engine : DeviceEngine) (kinds : List EventKind)
      → ((a : OutputAction) → backend.emit a ≡ none)
      → length kinds ≤ n
      → All (λ k. is_report k ≡ true) kinds
      → Routed profile config (run engine (forwarded profile config kinds))
      → ((drain_loop backend iface n (map event kinds) (ready engine)).written
          ≡ run engine (forwarded profile config kinds))
        × ((drain_loop backend iface n (map event kinds) (ready engine)).outcome ≡ done go_on)
  unfolding drain_loop forwarded run
  drain_loop-run zero engine [] w l r h = (refl, refl)
  drain_loop-run (suc n) engine [] w l r h = (refl, refl)
  drain_loop-run zero engine (kind ∷ kinds) w l r h = absurd (omega arith)
  drain_loop-run (suc n) engine (kind ∷ kinds) w l r h =
      rw (handle_event-report (ready engine) kind r.0) (
        rw (handle_kind-chosen engine kind) (
          by_chosen (chosen profile config kind) h
            (λ next k. drain_loop-run n next kinds w (omega arith) r.1 k)))
    where
      by_chosen :
          (o : Option EngineInput)
          → Routed profile config (run engine (onto o (forwarded profile config kinds)))
          → ((next : DeviceEngine)
              → Routed profile config (run next (forwarded profile config kinds))
              → ((drain_loop backend iface n (map event kinds) (ready next)).written
                  ≡ run next (forwarded profile config kinds))
                × ((drain_loop backend iface n (map event kinds) (ready next)).outcome
                    ≡ done go_on))
          → ((after_event
                (drain_loop backend iface n (map event kinds))
                (forward backend (ready engine) o, go_on)).written
              ≡ run engine (onto o (forwarded profile config kinds)))
            × ((after_event
                  (drain_loop backend iface n (map event kinds))
                  (forward backend (ready engine) o, go_on)).outcome
                ≡ done go_on)
      by_chosen none k more = more engine k
      by_chosen (some input) k more =
          let first = All-left (IsRouted profile config) (Engine.process engine input).1 _ k in
          let later =
            more (Engine.process engine input).0
              (All-right (IsRouted profile config) (Engine.process engine input).1 _ k) in
          rw (process-ready engine input w first)
            (ap (λ l. (Engine.process engine input).1 ++ l) later.0, later.1)

both_done :
    (g d : Bool) (a b : Option ℤ) (outputs : Bool × Bool)
    → both_created (created g a) (created d b) ≡ done outputs
    → outputs ≡ (g, d)
both_done false false a b outputs h = cc
both_done false true a none outputs h = cc
both_done false true a (some e) outputs h = absurd cc
both_done true false none b outputs h = cc
both_done true false (some e) b outputs h = absurd cc
both_done true true none none outputs h = cc
both_done true true none (some e) outputs h = absurd cc
both_done true true (some e) b outputs h = absurd cc

created_outputs :
    (backend : Backend) (profile : Profile) (config : Config) (outputs : Bool × Bool)
    → create_outputs backend profile config true ≡ done outputs
    → outputs ≡ (needs_gamepad profile config, needs_desktop profile config)
unfolding create_outputs
created_outputs backend profile config outputs h =
    both_done (needs_gamepad profile config) (needs_desktop profile config) (backend.create gamepad)
      (backend.create desktop) outputs h

-- A device that has just been made with its virtual devices, and whose writes succeed, drains up to
-- 256 reports without an error, and writes exactly the actions of a new engine that is given the
-- reports of the requested interfaces, in order: no action is lost for want of its virtual device,
-- and no report of another interface has an effect.
pub drain-run :
    (backend : Backend) (iface : Iface) (profile : Profile) (config : Config)
    (opened pending : InterfaceMask) (outputs : Bool × Bool) (kinds : List EventKind)
    → create_outputs backend profile config true ≡ done outputs
    → ((a : OutputAction) → backend.emit a ≡ none)
    → All (λ k. is_report k ≡ true) kinds
    → length kinds ≤ 256
    → ((drain backend iface
          (map event kinds)
          (assembled profile config opened pending outputs true)).written
        ≡ run (new config profile) (forwarded profile config kinds))
      × ((drain backend iface
            (map event kinds)
            (assembled profile config opened pending outputs true)).outcome
          ≡ done go_on)
unfolding drain assembled
drain-run backend iface profile config opened pending outputs kinds c w r l =
    rw (created_outputs backend profile config outputs c) (
      drain_loop-run backend iface profile config opened pending 256 (new config profile) kinds w l
        r (new-Routed config profile (forwarded profile config kinds)))
