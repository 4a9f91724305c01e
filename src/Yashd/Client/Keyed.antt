-- ===== src/Yashd/Client/Keyed.antt =====
-- When the client of Project 2/yashd/client/src/client.c takes what is typed for a command.
use system_prog.Base.{
  if_both, ◌<◌, ◌≡◌, ◌≢◌, refl, ap, sym, ◌∙◌, ◌⊎◌, Bool, true, false, Option, none, some, List, [],
  ◌∷◌, ◌++◌, append-nil, arith, Str, length, not, inl, inr, Bool-cases,
}
use system_prog.Yashd.Types.{Sent, Signal, sigint, sigtstp, sigcont, sigkill, yash_prompt, buf_size}
use system_prog.Yashd.Input.{Read, got, closed}
use system_prog.Yashd.Client.{
  Client, on_signal, on_signals, send_all, send_msg, push_tail, at_prompt, send_typed,
  drop_overlong, end_of_input, Flow, onward, restart, leave, send_int, send_stop, show, from_server,
  from_user, read_user, client_init, Poll, caught, failed, ready, after_poll, round,
}
use system_prog.Yashd.Client.Kept.{Ends, at_prompt-bytes, send_all-whole}
use system_prog.Yashd.Client.Tracking.{
  IsBetween, Leaves, from_server-Leaves, send_int-IsBetween, send_stop-IsBetween, Reached,
  Reached-IsBetween, client_init-IsBetween,
}

-- The client has the prompt only if the bytes that it has shown end with one, behind the first
-- prompt, which it takes for granted.
abbrev pub IsPrompted : Client → Type 0
IsPrompted s = s.prompt ≡ true → Ends (yash_prompt ++ s.shown) yash_prompt

IsBetween-IsPrompted : (s : Client) → IsBetween s → IsPrompted s
IsBetween-IsPrompted s h e = (
  h.tracking.stream.0,
  h.tracking.stream.1
      ∙ ap (◌++◌ h.tracking.stream.0) (at_prompt-bytes s.tail (h.tracking.prompted e)),
)

abbrev pub printed : Option Read → Str
printed (some (got text)) = text
printed _ = []

-- The client when it comes to what was typed in a round that began with `s`: the bytes of the
-- server are shown, and the flag is that of the stream with these bytes.
pub record AtInput (s : Client) (server : Option Read) (u : Client) : Type 0 where
  pub shown : u.shown ≡ s.shown ++ printed server
  pub inbuf : u.inbuf ≡ s.inbuf
  pub wire : u.wire ≡ (send_stop (send_int s)).wire
  pub open_as_before : u.stdin_open ≡ s.stdin_open
  pub prompted : IsPrompted u

-- Besides the control messages of the signals nothing is sent.
abbrev pub Silent : Client → Client × Flow → Type 0
Silent s r = r.0.wire ≡ (send_stop (send_int s)).wire

-- What a round does with what was typed: nothing, if the server's part ends the round or the input
-- has ended before; else it is handled in a state that has seen the server's bytes.
abbrev pub Handled : Bool → Option Read → Option Read → Client → Client × Flow → Type 0
Handled tty server (some (got text)) s r =
    (Silent s r × ((r.1 ≢ onward) ⊎ (s.stdin_open ≡ false)))
    ⊎ ((u : Client) × AtInput s server u
        × (r ≡ (drop_overlong (send_typed (record u { inbuf = u.inbuf ++ text })), onward)))
Handled tty server (some closed) s r =
    Silent s r ⊎ ((u : Client) × AtInput s server u × (r ≡ (end_of_input tty u, restart)))
Handled tty server _ s r = Silent s r

abbrev pub HandledPoll : Bool → Poll → Client → Client × Flow → Type 0
HandledPoll tty (ready server user) s r = Handled tty server user s r
HandledPoll tty _ s r = Silent s r

-- What the server's part of a round leaves.
abbrev Served : Client → Option Read → Client × Flow → Type 0
Served s server (u, onward) =
    (u.shown ≡ s.shown ++ printed server)
    × (u.inbuf ≡ s.inbuf)
    × (u.wire ≡ s.wire)
    × (u.stdin_open ≡ s.stdin_open)
Served s server (u, restart) = u.wire ≡ s.wire
Served s server (u, leave) = u.wire ≡ s.wire

from_server-Served : (server : Option Read) (s : Client) → Served s server (from_server server s)
unfolding from_server show
from_server-Served none s = (sym (append-nil s.shown), refl, refl, refl)
from_server-Served (some (got text)) s =
    let o = send_all s.prints text in
    let s' : Client = record s { prints = o.answers; shown = s.shown ++ o.taken } in
    let tail = push_tail text s.tail in
    if_both (Served s (some (got text))) o.ok
      (record s' { tail = tail; prompt = at_prompt tail }, onward) (s', leave)
      (λ k. (ap (◌++◌ s.shown) (send_all-whole s.prints text k), refl, refl, refl)) (λ _. refl)
from_server-Served (some closed) s = refl
from_server-Served (some Read.interrupted) s = refl
from_server-Served (some Read.broken) s = refl

flags-shown :
    (s : Client)
    → ((send_stop (send_int s)).shown ≡ s.shown)
      × ((send_stop (send_int s)).stdin_open ≡ s.stdin_open)
unfolding send_int send_stop send_msg
flags-shown s = elim (Bool-cases s.got_int) [
  | inl a ↦ elim (Bool-cases s.got_stop) [
    | inl b ↦ (ground (arith, a, b), ground (arith, a, b))
    | inr b ↦ (ground (arith, a, b), ground (arith, a, b))
  ]
  | inr a ↦ elim (Bool-cases s.got_stop) [
    | inl b ↦ (ground (arith, a, b), ground (arith, a, b))
    | inr b ↦ (ground (arith, a, b), ground (arith, a, b))
  ]
]

read_user-Handled :
    (tty : Bool) (server : Option Read) (r : Read) (s u : Client)
    → AtInput s server u
    → Handled tty server (some r) s (read_user tty r u)
unfolding read_user
read_user-Handled tty server (got text) s u a = inr (u, a, refl)
read_user-Handled tty server closed s u a = inr (u, a, refl)
read_user-Handled tty server Read.interrupted s u a = a.wire
read_user-Handled tty server Read.broken s u a = a.wire

from_user-Handled :
    (tty : Bool) (server user : Option Read) (s u : Client)
    → AtInput s server u
    → Handled tty server user s (from_user tty user u)
unfolding from_user
from_user-Handled tty server none s u a = a.wire
from_user-Handled tty server (some r) s u a =
    if_both (Handled tty server (some r) s) (not u.stdin_open) (u, onward) (read_user tty r u)
      (shut r) (λ _. read_user-Handled tty server r s u a)
  where
    shut : (r : Read) → not u.stdin_open ≡ true → Handled tty server (some r) s (u, onward)
    shut (got text) e = inl (a.wire, inr (sym a.open_as_before ∙ ground (arith, e)))
    shut closed e = inl a.wire
    shut Read.interrupted e = a.wire
    shut Read.broken e = a.wire

ended-Handled :
    (tty : Bool) (server user : Option Read) (s : Client) (r : Client × Flow)
    → Silent s r
    → r.1 ≢ onward
    → Handled tty server user s r
ended-Handled tty server none s r w e = w
ended-Handled tty server (some (got text)) s r w e = inl (w, inl e)
ended-Handled tty server (some closed) s r w e = inl w
ended-Handled tty server (some Read.interrupted) s r w e = w
ended-Handled tty server (some Read.broken) s r w e = w

after_server-Handled :
    (tty : Bool) (server user : Option Read) (s u : Client) (f : Flow)
    → Served (send_stop (send_int s)) server (u, f)
    → (send_stop (send_int s)).inbuf ≡ s.inbuf
    → Leaves (u, f)
    → Handled tty server user s
        (elim f [ onward ↦ from_user tty user u | restart ↦ (u, restart) | leave ↦ (u, leave) ])
after_server-Handled tty server user s u onward w i h =
    let (shown, stdin) = flags-shown s in
    from_user-Handled tty server user s u (record {
      shown = w.0 ∙ ap (λ z. z ++ printed server) shown;
      inbuf = w.1 ∙ i;
      wire = w.2;
      open_as_before = w.3 ∙ stdin;
      prompted = IsBetween-IsPrompted u h;
    })
after_server-Handled tty server user s u restart w i h =
    ended-Handled tty server user s (u, restart) w (λ e. ground (arith, e))
after_server-Handled tty server user s u leave w i h =
    ended-Handled tty server user s (u, leave) w (λ e. ground (arith, e))

on_signals-wire : (sigs : List Signal) (s : Client) → (on_signals sigs s).wire ≡ s.wire
unfolding on_signals on_signal
on_signals-wire [] s = refl
on_signals-wire (sigint ∷ sigs) s = on_signals-wire sigs (record s { got_int = true })
on_signals-wire (sigtstp ∷ sigs) s = on_signals-wire sigs (record s { got_stop = true })
on_signals-wire (sigcont ∷ sigs) s = on_signals-wire sigs (record s { got_stop = true })
on_signals-wire (sigkill ∷ sigs) s = on_signals-wire sigs (record s { got_stop = true })

round-HandledPoll :
    (tty : Bool) (p : Poll) (s : Client) → IsBetween s → HandledPoll tty p s (round tty p s)
unfolding round after_poll
round-HandledPoll tty (caught sigs) s h = on_signals-wire sigs (send_stop (send_int s))
round-HandledPoll tty failed s h = refl
round-HandledPoll tty (ready server user) s h =
    let (i, a) = send_int-IsBetween s h in
    let (j, b) = send_stop-IsBetween (send_int s) i in
    let t = send_stop (send_int s) in
    after_server-Handled tty server user s (from_server server t).0 (from_server server t).1
      (from_server-Served server t) (b ∙ a) (from_server-Leaves server t j)

-- Whatever was typed, received and signalled before and however the bytes were cut, if `read` never
-- returns more bytes than are asked for: at the top of the client's loop its buffer has a free place
-- for the NUL of Ctrl-d, and the client has the prompt only if all that it has shown, behind the
-- prompt that it assumes at first, ends with the prompt. In the round that follows, what is typed or
-- the end of the input is handled, if at all, by the loop over the lines or as Ctrl-d in a state that
-- has shown the server's bytes of this round and has the prompt only if the stream with these bytes
-- ends with it; nothing else is sent but the messages of the signals.
pub client_run-Tracks :
    (tty int stop : Bool) (sends prints : List Sent) (s : Client)
    → Reached tty (client_init int stop sends prints) s
    → (p : Poll) → (length s.inbuf < buf_size) × IsPrompted s × HandledPoll tty p s (round tty p s)
client_run-Tracks tty int stop sends prints s r p =
    let h =
      Reached-IsBetween tty (client_init int stop sends prints) s
        (client_init-IsBetween int stop sends prints) r in
    (omega (arith, h.room), IsBetween-IsPrompted s h, round-HandledPoll tty p s h)
