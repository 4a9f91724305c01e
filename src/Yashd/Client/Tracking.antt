-- ===== src/Yashd/Client/Tracking.antt =====
-- The prompt and the buffer in the loop of Project 2/yashd/client/src/client.c.
use system_prog.Base.{
  if_both, ◌-◌, ◌≤◌, ◌≡◌, ◌≢◌, refl, ap, sym, ◌∙◌, Bool, true, false, Option, none, some, List, [],
  ◌∷◌, ◌++◌, append_assoc, arith, Str, length, length-append, not, ◌+◌, Bool-cases, inl, inr,
}
use system_prog.Yashd.Types.{
  Sent, Signal, sigint, sigtstp, sigcont, sigkill, yash_prompt, buf_size, msg_ctl,
}
use system_prog.Yashd.Input.{Read, got, closed}
use system_prog.Yashd.Client.{
  Client, on_signal, on_signals, send_all, send_msg, push_tail, at_prompt, send_typed, Flow, onward,
  restart, leave, send_int, send_stop, show, from_server, from_user, read_user, client_init, Poll,
  caught, failed, ready, after_poll, round,
}
use system_prog.Yashd.Client.Kept.{
  push_tail-Ends, send_all-whole, IsClient, unmoved, send_typed-IsClient, drop_overlong-IsClient,
  end_of_input-IsClient,
}

-- Between two rounds the buffer is never full.
abbrev pub IsBetween : Client → Type 0
IsBetween = IsClient (buf_size - 1)

-- What a part of the loop's body leaves for the rest, unless it ends the loop.
abbrev pub Leaves : Client × Flow → Type 0
Leaves (s, leave) = Unit
Leaves (s, onward) = IsBetween s
Leaves (s, restart) = IsBetween s

show-Leaves : (text : Str) (s : Client) → IsBetween s → Leaves (show text s)
unfolding show
show-Leaves text s h =
    let o = send_all s.prints text in
    let s' : Client = record s { prints = o.answers; shown = s.shown ++ o.taken } in
    let tail = push_tail text s.tail in
    let (before, e) = push_tail-Ends text (yash_prompt ++ s.shown) s.tail h.tracking.stream in
    if_both Leaves o.ok (record s' { tail = tail; prompt = at_prompt tail }, onward) (s', leave)
      (λ k. record {
        tracking = record {
          stream = (
            before,
            ap (λ z. yash_prompt ++ (s.shown ++ z)) (send_all-whole s.prints text k)
                ∙ sym (append_assoc yash_prompt s.shown text)
                ∙ e,
          );
          prompted = λ p. p;
        };
        room = h.room;
      })
      (λ _. tt)

pub from_server-Leaves : (r : Option Read) (s : Client) → IsBetween s → Leaves (from_server r s)
unfolding from_server
from_server-Leaves none s h = h
from_server-Leaves (some (got text)) s h = show-Leaves text s h
from_server-Leaves (some closed) s h = tt
from_server-Leaves (some Read.interrupted) s h = h
from_server-Leaves (some Read.broken) s h = tt

-- The bytes that a `read` of the keyboard returns fit behind those of the buffer.
abbrev FitsRead : Option Read → Client → Type 0
FitsRead (some (got text)) s = length s.inbuf + length text ≤ buf_size
FitsRead _ s = Unit

got-IsClient :
    (text : Str) (s : Client)
    → length s.inbuf + length text ≤ buf_size
    → IsBetween s
    → IsClient buf_size (record s { inbuf = s.inbuf ++ text })
got-IsClient text s f h = record {
  tracking = record { stream = h.tracking.stream; prompted = h.tracking.prompted };
  room = omega (arith, length-append s.inbuf text);
}

read_user-Leaves :
    (tty : Bool) (r : Read) (s : Client)
    → FitsRead (some r) s
    → IsBetween s
    → Leaves (read_user tty r s)
unfolding read_user
read_user-Leaves tty (got text) s f h =
    drop_overlong-IsClient (send_typed (record s { inbuf = s.inbuf ++ text })) (
      send_typed-IsClient buf_size (record s { inbuf = s.inbuf ++ text }) (got-IsClient text s f h))
read_user-Leaves tty closed s f h = end_of_input-IsClient (buf_size - 1) tty s h
read_user-Leaves tty Read.interrupted s f h = h
read_user-Leaves tty Read.broken s f h = tt

from_user-Leaves :
    (tty : Bool) (r : Option Read) (s : Client)
    → FitsRead r s
    → IsBetween s
    → Leaves (from_user tty r s)
unfolding from_user
from_user-Leaves tty none s f h = h
from_user-Leaves tty (some r) s f h =
    if_both Leaves (not s.stdin_open) (s, onward) (read_user tty r s) (λ _. h)
      (λ _. read_user-Leaves tty r s f h)

show-inbuf : (text : Str) (s : Client) → (show text s).0.inbuf ≡ s.inbuf
unfolding show
show-inbuf text s = elim (Bool-cases (send_all s.prints text).ok) [
  | inl e ↦ ground arith
  | inr e ↦ ground arith
]

from_server-inbuf : (r : Option Read) (s : Client) → (from_server r s).0.inbuf ≡ s.inbuf
unfolding from_server
from_server-inbuf none s = refl
from_server-inbuf (some (got text)) s = show-inbuf text s
from_server-inbuf (some closed) s = refl
from_server-inbuf (some Read.interrupted) s = refl
from_server-inbuf (some Read.broken) s = refl

on_signal-IsBetween : (sig : Signal) (s : Client) → IsBetween s → IsBetween (on_signal sig s)
unfolding on_signal
on_signal-IsBetween sigint s h = unmoved (record s { got_int = true }) h refl refl refl refl
on_signal-IsBetween sigtstp s h = unmoved (record s { got_stop = true }) h refl refl refl refl
on_signal-IsBetween sigcont s h = unmoved (record s { got_stop = true }) h refl refl refl refl
on_signal-IsBetween sigkill s h = unmoved (record s { got_stop = true }) h refl refl refl refl

on_signals-IsBetween :
    (sigs : List Signal) (s : Client) → IsBetween s → IsBetween (on_signals sigs s)
unfolding on_signals
on_signals-IsBetween [] s h = h
on_signals-IsBetween (sig ∷ sigs) s h =
    on_signals-IsBetween sigs (on_signal sig s) (on_signal-IsBetween sig s h)

-- A `read` returns no more bytes than are asked for.
abbrev pub FitsPoll : Poll → Client → Type 0
FitsPoll (ready server user) s = FitsRead user s
FitsPoll _ s = Unit

FitsRead-inbuf : (r : Option Read) (s t : Client) → t.inbuf ≡ s.inbuf → FitsRead r s → FitsRead r t
FitsRead-inbuf none s t e f = tt
FitsRead-inbuf (some (got text)) s t e f = omega (arith, ap length e)
FitsRead-inbuf (some closed) s t e f = tt
FitsRead-inbuf (some Read.interrupted) s t e f = tt
FitsRead-inbuf (some Read.broken) s t e f = tt

after_server-Leaves :
    (tty : Bool) (user : Option Read) (s : Client) (f : Flow)
    → FitsRead user s
    → Leaves (s, f)
    → Leaves
        (elim f [ onward ↦ from_user tty user s | restart ↦ (s, restart) | leave ↦ (s, leave) ])
after_server-Leaves tty user s onward k h = from_user-Leaves tty user s k h
after_server-Leaves tty user s restart k h = h
after_server-Leaves tty user s leave k h = tt

after_poll-Leaves :
    (tty : Bool) (p : Poll) (s : Client) → FitsPoll p s → IsBetween s → Leaves (after_poll tty p s)
unfolding after_poll
after_poll-Leaves tty (caught sigs) s f h = on_signals-IsBetween sigs s h
after_poll-Leaves tty failed s f h = tt
after_poll-Leaves tty (ready server user) s f h =
    after_server-Leaves tty user (from_server server s).0 (from_server server s).1
      (FitsRead-inbuf user s (from_server server s).0 (from_server-inbuf server s) f)
      (from_server-Leaves server s h)

pub send_int-IsBetween :
    (s : Client) → IsBetween s → IsBetween (send_int s) × ((send_int s).inbuf ≡ s.inbuf)
unfolding send_int send_msg
send_int-IsBetween s h =
    if_both (λ u. IsBetween u × (u.inbuf ≡ s.inbuf)) s.got_int
      (send_msg msg_ctl (b'c' ∷ []) (record s { got_int = false })) s
      (λ _. (
        unmoved (send_msg msg_ctl (b'c' ∷ []) (record s { got_int = false })) h refl refl refl refl,
        refl,
      ))
      (λ _. (h, refl))

pub send_stop-IsBetween :
    (s : Client) → IsBetween s → IsBetween (send_stop s) × ((send_stop s).inbuf ≡ s.inbuf)
unfolding send_stop send_msg
send_stop-IsBetween s h =
    if_both (λ u. IsBetween u × (u.inbuf ≡ s.inbuf)) s.got_stop
      (send_msg msg_ctl (b'z' ∷ []) (record s { got_stop = false })) s
      (λ _. (
        unmoved (send_msg msg_ctl (b'z' ∷ []) (record s { got_stop = false })) h refl refl refl
            refl,
        refl,
      ))
      (λ _. (h, refl))

round-Leaves :
    (tty : Bool) (p : Poll) (s : Client) → FitsPoll p s → IsBetween s → Leaves (round tty p s)
unfolding round
round-Leaves tty p s f h =
    let (i, a) = send_int-IsBetween s h in
    let (j, b) = send_stop-IsBetween (send_int s) i in
    after_poll-Leaves tty p (send_stop (send_int s)) (fits p (b ∙ a) f) j
  where
    fits :
        (q : Poll)
        → (send_stop (send_int s)).inbuf ≡ s.inbuf
        → FitsPoll q s
        → FitsPoll q (send_stop (send_int s))
    fits (caught sigs) e g = tt
    fits failed e g = tt
    fits (ready server user) e g = FitsRead-inbuf user s (send_stop (send_int s)) e g

-- The states at the top of the loop.
pub data Reached (tty : Bool) (s : Client) : Client → Type 0 where
  start : Reached tty s s
  next :
      {t : Client} (p : Poll)
      → Reached tty s t
      → t.done ≡ false
      → FitsPoll p t
      → (round tty p t).1 ≢ leave
      → Reached tty s (round tty p t).0

Leaves-IsBetween : (s : Client) (f : Flow) → f ≢ leave → Leaves (s, f) → IsBetween s
Leaves-IsBetween s onward e h = h
Leaves-IsBetween s restart e h = h
Leaves-IsBetween s leave e h = absurd (e refl)

pub Reached-IsBetween : (tty : Bool) (s t : Client) → IsBetween s → Reached tty s t → IsBetween t
Reached-IsBetween tty s _ h start = h
Reached-IsBetween tty s _ h (next {t} p r d f e) =
    Leaves-IsBetween (round tty p t).0 (round tty p t).1 e
      (round-Leaves tty p t f (Reached-IsBetween tty s t h r))

pub client_init-IsBetween :
    (int stop : Bool) (sends prints : List Sent) → IsBetween (client_init int stop sends prints)
unfolding client_init at_prompt
client_init-IsBetween int stop sends prints = record {
  tracking = record { stream = ([], refl); prompted = λ _. refl };
  room = omega arith;
}
