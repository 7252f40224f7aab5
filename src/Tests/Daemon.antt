-- ===== src/Tests/Daemon.antt =====
-- Concrete inputs for the theorems on crates/wiilandd.
use wiiland.Prelude.{◌≡◌, refl, arith, true, false, List, [], ◌∷◌, none, some, map}
use wiiland.Prelude.Text.{Text, codes, eq_text}
use wiiland.Input.{Button, pressed, released}
use wiiland.Config.Types.{profile_gamepad, default}
use wiiland.Ipc.Protocol
use wiiland.Hid.Model
use wiiland.Hid.Model.{EventKind, key, accel_move, origin}
use wiiland.Engine.State.{OutputAction, needs_gamepad}
use wiiland.Engine.Routing.{run}
use wiiland.Ipc.Frame.{done, err, json}
use wiiland.Ipc.Protocol.{hello}
use wiiland.Daemon.Client.{Write, takes, would_block, write_budget, new, queue_encoded, write_ready}
use wiiland.Daemon.Client.Requests.{Services}
use wiiland.Daemon.Client.Reads.{chunk}
use wiiland.Daemon.Client.Keeps.{new-IsClient, queue_encoded-IsClient}
use wiiland.Daemon.Client.Writes.{Sent, write_ready-Sent}
use wiiland.Daemon.Report.{parse_args, is_help}
use wiiland.Daemon.Report.Passed.{IsAnswer, parse_args-IsAnswer}
use wiiland.Daemon.Runtime.{input_payload}
use wiiland.Daemon.Runtime.Payloads.{report_of, input_payload-report_of}
use wiiland.Daemon.Server.Acts.{Act, ready, completed}
use wiiland.Daemon.Bridge.Interfaces.{Iface}
use wiiland.Daemon.Bridge.{Backend, Outcome, create_outputs, assembled, event, go_on, drain}
use wiiland.Daemon.Bridge.Written.{is_report, forwarded, drain-run}

-- A JSON library for one message: a byte reads as a request, and every message has one byte.
abbrev services : Services
services = record {
  to_vec = λ message. done (123 ∷ []);
  from_slice = λ text. done (record { id = 1; command = hello 1 1 });
  daemon_version = codes "1";
  current_status = record {
    daemon_version = codes "1";
    pid = 1;
    device_count = 0;
    dry_run = true;
    socket_path = [];
  };
  current_devices = [];
}

abbrev acts : List (Act services)
acts =
    ready true false (chunk (123 ∷ 10 ∷ []) ∷ []) (takes 1 ∷ []) ∷ completed 1 (err (json [])) ∷ []

abbrev backend : Backend
backend = record { create = λ device. none; emit = λ action. none }

abbrev iface : Iface
iface = record { opened = 0; after_close = λ mask. 0; open_more = λ mask. (mask, none) }

abbrev kinds : List EventKind
kinds =
    key (record { button = Button.a; state = pressed })
    ∷ accel_move origin
    ∷ key (record { button = Button.a; state = released })
    ∷ []

drain-run_example :
    ((drain backend iface
        (map event kinds)
        (assembled profile_gamepad default 0 0 (true, false) true)).written
      ≡ run
          (wiiland.Engine.State.new default profile_gamepad)
          (forwarded profile_gamepad default kinds))
    × ((drain backend iface
          (map event kinds)
          (assembled profile_gamepad default 0 0 (true, false) true)).outcome
        ≡ Outcome.done go_on)
unfolding create_outputs wiiland.Engine.State.needs_gamepad wiiland.Engine.State.needs_desktop
    is_report default
drain-run_example =
    drain-run backend iface profile_gamepad default 0 0 (true, false) kinds refl (λ a. refl)
      (refl, (refl, (refl, tt))) (omega arith)

abbrev cut_writes : List Write
cut_writes = takes 2 ∷ takes 5 ∷ would_block ∷ []

write_ready-Sent_example :
    Sent write_budget
      (queue_encoded (queue_encoded new (1 ∷ 2 ∷ 3 ∷ 10 ∷ [])).0 (4 ∷ 10 ∷ [])).0
      (write_ready cut_writes
        (queue_encoded (queue_encoded new (1 ∷ 2 ∷ 3 ∷ 10 ∷ [])).0 (4 ∷ 10 ∷ [])).0).0
write_ready-Sent_example =
    write_ready-Sent cut_writes
      (queue_encoded (queue_encoded new (1 ∷ 2 ∷ 3 ∷ 10 ∷ [])).0 (4 ∷ 10 ∷ [])).0
      (queue_encoded-IsClient (queue_encoded new (1 ∷ 2 ∷ 3 ∷ 10 ∷ [])).0 (4 ∷ 10 ∷ [])
        (queue_encoded-IsClient new (1 ∷ 2 ∷ 3 ∷ 10 ∷ []) new-IsClient))

abbrev report_args : List Text
report_args = codes "--backend" ∷ codes "--device" ∷ codes "--trace-events=all" ∷ []

not_help : is_help (codes "1") ≡ false
unfolding eq_text
not_help = refl

parse_args-IsAnswer_example :
    IsAnswer (codes "1") report_args (parse_args (codes "1" ∷ report_args))
parse_args-IsAnswer_example = parse_args-IsAnswer (codes "1") report_args not_help

abbrev press : EventKind
press = key (record { button = Button.a; state = pressed })

input_payload-report_of_example :
    (report_of (input_payload press) ≡ some press)
    × (wiiland.Ipc.Protocol.event_code (input_payload press) ≡ wiiland.Hid.Model.event_code press)
input_payload-report_of_example = input_payload-report_of press
