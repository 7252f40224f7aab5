-- ===== src/Tests/Hid.antt =====
-- Concrete inputs for the theorems on crates/wiiland-hid.
use wiiland.Prelude.{
  ℕ, ◌≡◌, refl, arith, true, not, same, ◌&&◌, ◌==◌, List, [], ◌∷◌, none, if◌then◌else◌,
}
use wiiland.Prelude.Int.{pos, eqb_ℤ}
use wiiland.Prelude.Lists.{length, All}
use wiiland.Hid.Codes.{ev_syn, ev_key, ev_abs, syn_report, syn_dropped, btn_a, abs_hat1x}
use wiiland.Hid.Model.{TimeVal, InputEvent, core, ir}
use wiiland.Hid.Recovery.{default, words_of, seed, next_key}
use wiiland.Hid.Recovery.Bits.{holds}
use wiiland.Hid.Recovery.Count.{count_below}
use wiiland.Hid.Recovery.Keeps.{default-IsRecovery}
use wiiland.Hid.Recovery.Drain.{drain, replay, drain-seed}
use wiiland.Hid.Decoder.{
  Decoder, new, push, push_all, recover, Call, pushed, recovering, replayed, call_all,
}
use wiiland.Hid.Decoder.Keeps.{IsDecoder}
use wiiland.Hid.Decoder.Reports.{belongs, new-belongs}
use wiiland.Hid.Decoder.Lost.{changes_key, recover-push_all, push-holds}

abbrev now : TimeVal
now = record { tv_sec = pos 7; tv_usec = pos 0 }

-- Three keys are held, in two words.
abbrev held_keys : List ℕ
held_keys = 6 ∷ 1 ∷ []

abbrev input : ℕ → ℕ → ℕ → InputEvent
input event_type code v = record { time = now; event_type = event_type; code = code; value = pos v }

abbrev tracker : Decoder
tracker = new ir

abbrev calls : List Call
calls =
    pushed (input ev_abs abs_hat1x 300)
    ∷ pushed (input ev_syn syn_report 0)
    ∷ pushed (input ev_syn syn_dropped 0)
    ∷ recovering held_keys ((abs_hat1x, pos 400) ∷ []) now
    ∷ replayed
    ∷ []

seed_runs : (next_key (drain 3 (seed default held_keys now true)).0).1 ≡ none
unfolding drain seed default next_key
seed_runs = refl

drain-seed_example :
    (replay (holds default.key_state) (drain 768 (seed default held_keys now true)).1 64
      ≡ holds (words_of 12 held_keys) 64)
    × (length (drain 768 (seed default held_keys now true)).1
        ≡ count_below
            (λ k. not (same (holds default.key_state k) (holds (words_of 12 held_keys) k)))
            768)
    × ((next_key (drain 768 (seed default held_keys now true)).0).1 ≡ none)
unfolding default
drain-seed_example =
    drain-seed default held_keys now true 64 refl default-IsRecovery.0.1
      (omega arith, (omega arith, tt)) (omega arith)

new-belongs_example :
    All (λ e. belongs ir e.kind ≡ true) (call_all (new ir) calls).1
    × IsDecoder ir (call_all (new ir) calls).0
new-belongs_example =
    new-belongs ir calls (tt, (tt, (tt, ((omega arith, (omega arith, tt)), (tt, tt)))))

recover-push_all_example :
    ((push_all tracker (input ev_syn syn_dropped 0 ∷ input ev_syn syn_report 0 ∷ [])).1 ≡ [])
    × (recover
          (push_all tracker (input ev_syn syn_dropped 0 ∷ input ev_syn syn_report 0 ∷ [])).0
          held_keys
          []
          now
        ≡ recover tracker held_keys [] now)
recover-push_all_example =
    recover-push_all tracker (input ev_syn syn_dropped 0) (input ev_syn syn_report 0 ∷ []) held_keys
      [] now refl refl

push-holds_example : holds (push (new core) (input ev_key btn_a 1)).0.recovery.key_state btn_a ≡ (
    if changes_key (input ev_key btn_a 1) && (btn_a == btn_a)
    then not (eqb_ℤ (pos 1) (pos 0))
    else holds (new core).recovery.key_state btn_a)
unfolding new default
push-holds_example = push-holds (new core) (input ev_key btn_a 1) btn_a default-IsRecovery refl
