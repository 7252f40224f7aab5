-- ===== src/Daemon/Client/Keeps.antt =====
-- What a connection of crates/wiilandd/src/ipc/connection.rs keeps.
use wiiland.Prelude.{
  ℕ, ◌+◌, ◌-◌, ◌≤◌, ◌≡◌, refl, ap, subst, ◌∙◌, arith, Bool, true, false, ◌==◌, ltb, min, List, [],
  ◌∷◌, ◌++◌, ◌⊎◌, inl, inr, if_cases, if_both,
}
use wiiland.Prelude.Lists.{length, All}
use wiiland.Ipc.Protocol.{max_capture_devices, Subscription, all, input_events, device_events}
use wiiland.Daemon.Client.{
  saturating_add, max_queued_bytes, frame_budget, write_budget, Pending, Client, new, queue_encoded,
  apply_subscriptions, Write, takes, would_block, fails, advance, offered, write_front, write_round,
  write_loop, write_ready,
}

-- The bytes of the output that are not written yet.
abbrev pub remaining : List Pending → ℕ
remaining [] = 0
remaining (p ∷ output) = (length p.bytes - p.offset) + remaining output

-- The count of queued bytes is that of the bytes that wait, and within its limit; so is the number of
-- commands and of captures; and a connection that has not said hello has no subscription and no command.
pub record IsClient (self : Client) : Type 0 where
  pub counted : self.queued_bytes ≡ remaining self.output
  pub bounded : self.queued_bytes ≤ max_queued_bytes
  pub offsets : All (λ (p : Pending). p.offset ≤ length p.bytes) self.output
  pub few : length self.commands ≤ frame_budget
  pub captures : length self.capture ≤ max_capture_devices
  pub idle :
      (self.negotiated ≡ true)
      ⊎ ((self.input ≡ false) × (self.devices ≡ false) × (self.commands ≡ []))

remaining-append : (a b : List Pending) → remaining (a ++ b) ≡ remaining a + remaining b
remaining-append [] b = omega arith
remaining-append (p ∷ a) b = omega (arith, remaining-append a b)

offsets-append :
    (a b : List Pending)
    → All (λ (p : Pending). p.offset ≤ length p.bytes) a
    → All (λ (p : Pending). p.offset ≤ length p.bytes) b
    → All (λ (p : Pending). p.offset ≤ length p.bytes) (a ++ b)
offsets-append [] b h k = k
offsets-append (p ∷ a) b h k = (h.0, offsets-append a b h.1 k)

pub new-IsClient : IsClient new
unfolding new
new-IsClient = record {
  counted = refl;
  bounded = omega arith;
  offsets = tt;
  few = omega arith;
  captures = omega arith;
  idle = inr (refl, refl, refl);
}

pub with_close-IsClient :
    (self : Client) (immediate closing : Bool)
    → IsClient self
    → IsClient (record self { immediate_close = immediate; closing = closing })
with_close-IsClient self immediate closing c = record {
  counted = c.counted;
  bounded = c.bounded;
  offsets = c.offsets;
  few = c.few;
  captures = c.captures;
  idle = c.idle;
}

pub queue_encoded-IsClient :
    (self : Client) (bytes : List ℕ) → IsClient self → IsClient (queue_encoded self bytes).0
unfolding queue_encoded
queue_encoded-IsClient self bytes c =
    if_cases (λ (r : Client × Bool). IsClient r.0)
      (ltb max_queued_bytes (saturating_add self.queued_bytes (length bytes)))
      (record self { immediate_close = true }, false)
      (
        record self {
          queued_bytes = self.queued_bytes + length bytes;
          output = self.output ++ record { bytes = bytes; offset = 0 } ∷ [];
        },
        true,
      )
      (λ t. with_close-IsClient self true self.closing c) queued
  where
    queued :
        ltb max_queued_bytes (saturating_add self.queued_bytes (length bytes)) ≡ false
        → IsClient (record self {
          queued_bytes = self.queued_bytes + length bytes;
          output = self.output ++ record { bytes = bytes; offset = 0 } ∷ [];
        })
    queued f = record {
      counted = omega (
        arith,
        c.counted,
        remaining-append self.output (record { bytes = bytes; offset = 0 } ∷ []),
      );
      bounded = ground arith;
      offsets =
          offsets-append self.output (record { bytes = bytes; offset = 0 } ∷ []) c.offsets
            (omega arith, tt);
      few = c.few;
      captures = c.captures;
      idle = c.idle;
    }

with_output-IsClient :
    (self : Client) (bytes : ℕ) (output : List Pending)
    → IsClient self
    → bytes ≡ remaining output
    → bytes ≤ max_queued_bytes
    → All (λ (p : Pending). p.offset ≤ length p.bytes) output
    → IsClient (record self { queued_bytes = bytes; output = output })
with_output-IsClient self bytes output c e l a = record {
  counted = e;
  bounded = l;
  offsets = a;
  few = c.few;
  captures = c.captures;
  idle = c.idle;
}

pub advance-IsClient :
    (self : Client) (front : Pending) (rest : List Pending) (written : ℕ)
    → IsClient self
    → self.output ≡ front ∷ rest
    → written ≤ length front.bytes - front.offset
    → IsClient (advance self front rest written)
advance-IsClient self front rest written c e l =
    if_cases
      (λ output.
        IsClient (record self { queued_bytes = self.queued_bytes - written; output = output }))
      (front.offset + written == length front.bytes) rest
      (record front { offset = front.offset + written } ∷ rest)
      (λ t.
        with_output-IsClient self (self.queued_bytes - written) rest c (ground (arith, counted))
          (omega (arith, c.bounded)) offsets.1)
      (λ f.
        with_output-IsClient self (self.queued_bytes - written)
          (record front { offset = front.offset + written } ∷ rest) c (omega (arith, counted, l))
          (omega (arith, c.bounded)) (omega (arith, l, offsets.0), offsets.1))
  where
    counted : self.queued_bytes ≡ (length front.bytes - front.offset) + remaining rest
    counted = c.counted ∙ ap remaining e

    offsets :
        (front.offset ≤ length front.bytes) × All (λ (p : Pending). p.offset ≤ length p.bytes) rest
    offsets = subst (All (λ (p : Pending). p.offset ≤ length p.bytes)) e c.offsets

write_round-IsClient :
    (again : ℕ → Client → Client × Bool) (self : Client) (budget : ℕ) (w : Write)
    → IsClient self
    → ((budget : ℕ) (next : Client) → IsClient next → IsClient (again budget next).0)
    → (output : List Pending) → self.output ≡ output
    → IsClient (write_round again self budget w output).0
write_round-IsClient again self budget w c more [] e = c
write_round-IsClient again self budget w c more (front ∷ rest) e =
    if_both (λ (r : Client × Bool). IsClient r.0) (budget == 0) (self, true)
      (write_front again self budget front rest w) c (by_write w)
  where
    by_write : (w : Write) → IsClient (write_front again self budget front rest w).0
    by_write would_block = c
    by_write fails = with_close-IsClient self self.immediate_close true c
    by_write (takes n) =
        if_both (λ (r : Client × Bool). IsClient r.0) (min n (offered front budget) == 0)
          (record self { closing = true }, false)
          (again (budget - min n (offered front budget))
            (advance self front rest (min n (offered front budget))))
          (with_close-IsClient self self.immediate_close true c)
          (more (budget - min n (offered front budget))
            (advance self front rest (min n (offered front budget)))
            (advance-IsClient self front rest (min n (offered front budget)) c e (omega arith)))

write_loop-IsClient :
    (writes : List Write) (budget : ℕ) (self : Client)
    → IsClient self
    → IsClient (write_loop writes budget self).0
unfolding write_loop
write_loop-IsClient [] budget self c = c
write_loop-IsClient (w ∷ writes) budget self c =
    write_round-IsClient (write_loop writes) self budget w c
      (λ b next k. write_loop-IsClient writes b next k) self.output refl

pub write_ready-IsClient :
    (writes : List Write) (self : Client) → IsClient self → IsClient (write_ready writes self).0
unfolding write_ready
write_ready-IsClient writes self c = write_loop-IsClient writes write_budget self c

flags :
    (self : Client) (input devices : Bool)
    → IsClient self
    → self.negotiated ≡ true
    → IsClient (record self { input = input; devices = devices })
flags self input devices c n = record {
  counted = c.counted;
  bounded = c.bounded;
  offsets = c.offsets;
  few = c.few;
  captures = c.captures;
  idle = inl n;
}

pub apply_subscriptions-IsClient :
    (self : Client) (subscriptions : List Subscription) (enabled : Bool)
    → IsClient self
    → self.negotiated ≡ true
    → IsClient (apply_subscriptions self subscriptions enabled)
unfolding apply_subscriptions
apply_subscriptions-IsClient self [] enabled c n = c
apply_subscriptions-IsClient self (all ∷ subscriptions) enabled c n =
    apply_subscriptions-IsClient (record self { input = enabled; devices = enabled }) subscriptions
      enabled (flags self enabled enabled c n) n
apply_subscriptions-IsClient self (input_events ∷ subscriptions) enabled c n =
    apply_subscriptions-IsClient (record self { input = enabled }) subscriptions enabled
      (flags self enabled self.devices c n) n
apply_subscriptions-IsClient self (device_events ∷ subscriptions) enabled c n =
    apply_subscriptions-IsClient (record self { devices = enabled }) subscriptions enabled
      (flags self self.input enabled c n) n
