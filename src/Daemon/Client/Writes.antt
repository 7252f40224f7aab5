-- ===== src/Daemon/Client/Writes.antt =====
-- The order of the bytes that `write_ready` of crates/wiilandd/src/ipc/connection.rs writes.
use wiiland.Prelude.{
  ℕ, ◌+◌, ◌-◌, ◌≤◌, ◌≡◌, refl, ap, sym, subst, ◌∙◌, arith, Bool, true, false, ◌==◌, min, List, [],
  ◌∷◌, ◌++◌, if_cases, if_both,
}
use wiiland.Prelude.Lists.{All, length, drop, length-drop, drop-drop, drop-append, drop-length}
use wiiland.Daemon.Client.{
  write_budget, Pending, Client, Write, takes, would_block, fails, advance, offered, write_front,
  write_round, write_loop, write_ready,
}
use wiiland.Daemon.Client.Keeps.{remaining, IsClient, advance-IsClient}

-- The bytes that are not written yet, in their order.
abbrev unsent : List Pending → List ℕ
unsent [] = []
unsent (p ∷ output) = drop p.offset p.bytes ++ unsent output

-- From `self` to `after` the count falls by at most `budget`, and so many of the first bytes are gone.
abbrev pub Sent : ℕ → Client → Client → Type 0
Sent budget self after =
    (after.queued_bytes ≤ self.queued_bytes)
    × (self.queued_bytes ≤ after.queued_bytes + budget)
    × (unsent after.output ≡ drop (self.queued_bytes - after.queued_bytes) (unsent self.output))

drop_nothing : (n : ℕ) (xs : List ℕ) → n ≡ 0 → drop n xs ≡ xs
drop_nothing n xs e = ap (λ n. drop n xs) e

same-Sent :
    (budget : ℕ) (self after : Client)
    → after.queued_bytes ≡ self.queued_bytes
    → after.output ≡ self.output
    → Sent budget self after
same-Sent budget self after q o = (
  omega arith,
  omega arith,
  ap unsent o
      ∙ sym (
          drop_nothing (self.queued_bytes - after.queued_bytes) (unsent self.output) (omega arith)),
)

more-Sent :
    (written budget : ℕ) (self next after : Client)
    → written ≤ budget
    → Sent written self next
    → Sent (budget - written) next after
    → Sent budget self after
more-Sent written budget self next after l h k = (
  omega (arith, h.0, k.0),
  omega (arith, h.1, k.1),
  k.2
      ∙ ap (drop (next.queued_bytes - after.queued_bytes)) h.2
      ∙ drop-drop (self.queued_bytes - next.queued_bytes) (next.queued_bytes - after.queued_bytes)
          (self.queued_bytes - after.queued_bytes) (unsent self.output) (omega (arith, h.0, k.0)),
)

rest_of_front :
    (front : Pending) (rest : List Pending) (written : ℕ)
    → front.offset + written ≤ length front.bytes
    → drop (front.offset + written) front.bytes ++ unsent rest
      ≡ drop written (unsent (front ∷ rest))
rest_of_front front rest written l =
    ap (λ xs. xs ++ unsent rest)
      (sym (drop-drop front.offset written (front.offset + written) front.bytes refl))
    ∙ sym (
        drop-append written (drop front.offset front.bytes) (unsent rest)
          (omega (arith, l, length-drop front.offset front.bytes)))

advance-Sent :
    (self : Client) (front : Pending) (rest : List Pending) (written : ℕ)
    → IsClient self
    → self.output ≡ front ∷ rest
    → written ≤ length front.bytes - front.offset
    → Sent written self (advance self front rest written)
advance-Sent self front rest written c e l = (
  omega arith,
  omega arith,
  if_cases (λ output. unsent output ≡ drop written (unsent (front ∷ rest)))
        (front.offset + written == length front.bytes) rest
        (record front { offset = front.offset + written } ∷ rest) (λ t. all_written t)
        (λ f. rest_of_front front rest written fits)
      ∙ ap (drop written) (ap unsent (sym e))
      ∙ ap (λ n. drop n (unsent self.output))
          (let same : written ≡ self.queued_bytes - (self.queued_bytes - written) =
              omega (arith, counted, l) in
            same),
)
  where
    counted : self.queued_bytes ≡ (length front.bytes - front.offset) + remaining rest
    counted = c.counted ∙ ap remaining e

    offset : front.offset ≤ length front.bytes
    offset = (subst (All (λ (p : Pending). p.offset ≤ length p.bytes)) e c.offsets).0

    fits : front.offset + written ≤ length front.bytes
    fits = omega (arith, offset, l)

    all_written :
        front.offset + written == length front.bytes ≡ true
        → unsent rest ≡ drop written (unsent (front ∷ rest))
    all_written t =
        let at_end : front.offset + written ≡ length front.bytes = ground arith in
        ap (λ xs. xs ++ unsent rest)
          (sym (ap (λ n. drop n front.bytes) at_end ∙ drop-length front.bytes))
        ∙ rest_of_front front rest written fits

write_round-Sent :
    (again : ℕ → Client → Client × Bool) (self : Client) (budget : ℕ) (w : Write)
    → IsClient self
    → ((budget : ℕ) (next : Client) → IsClient next → Sent budget next (again budget next).0)
    → (output : List Pending) → self.output ≡ output
    → Sent budget self (write_round again self budget w output).0
write_round-Sent again self budget w c more [] e = same-Sent budget self self refl refl
write_round-Sent again self budget w c more (front ∷ rest) e =
    if_both (λ (r : Client × Bool). Sent budget self r.0) (budget == 0) (self, true)
      (write_front again self budget front rest w) (same-Sent budget self self refl refl)
      (by_write w)
  where
    by_write : (w : Write) → Sent budget self (write_front again self budget front rest w).0
    by_write would_block = same-Sent budget self self refl refl
    by_write fails = same-Sent budget self (record self { closing = true }) refl refl
    by_write (takes n) =
        let written = min n (offered front budget) in
        if_both (λ (r : Client × Bool). Sent budget self r.0) (written == 0)
          (record self { closing = true }, false)
          (again (budget - written) (advance self front rest written))
          (same-Sent budget self (record self { closing = true }) refl refl)
          (more-Sent written budget self (advance self front rest written)
            (again (budget - written) (advance self front rest written)).0 (omega arith)
            (advance-Sent self front rest written c e (omega arith))
            (more (budget - written) (advance self front rest written)
              (advance-IsClient self front rest written c e (omega arith))))

write_loop-Sent :
    (writes : List Write) (budget : ℕ) (self : Client)
    → IsClient self
    → Sent budget self (write_loop writes budget self).0
unfolding write_loop
write_loop-Sent [] budget self c = same-Sent budget self self refl refl
write_loop-Sent (w ∷ writes) budget self c =
    write_round-Sent (write_loop writes) self budget w c
      (λ b next k. write_loop-Sent writes b next k) self.output refl

-- However the socket cuts the writes, and also when one of them fails: the count of queued bytes
-- falls by at most 65536, and the bytes that still wait are those that waited without the first so
-- many, in their order. The connection is one that keeps its counts and limits.
pub write_ready-Sent :
    (writes : List Write) (self : Client)
    → IsClient self
    → Sent write_budget self (write_ready writes self).0
unfolding write_ready
write_ready-Sent writes self c = write_loop-Sent writes write_budget self c
