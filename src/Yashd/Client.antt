-- ===== src/Yashd/Client.antt =====
-- The client: Project 2/yashd/client/src/client.c.
pub mod Kept
pub mod Tracking
pub mod Keyed
pub mod Lines
pub mod Served
mod Tests
use system_prog.Base.{
  ℕ, zero, suc, ◌-◌, Bool, true, false, not, ◌&&◌, Option, none, some, List, [], ◌∷◌, ◌++◌, Str,
  length, take, drop, str_eq, leb, ◌==◌, if◌then◌else◌, bytes,
}
use system_prog.Yashd.Types.{
  Sent, sent, interrupted, broken, Signal, sigint, buf_size, msg_cmd, msg_ctl,
}
use system_prog.Yashd.Input.{Read, got, closed, split_line}

-- `tail[0]`, `tail[1]` and `tail[2]`.
pub record Tail : Type 0 where
  pub oldest : ℕ
  pub middle : ℕ
  pub newest : ℕ

-- The variables of `client_run`, the two flags of the handlers, and what the kernel will answer to
-- the writes: `sends` on the socket and `prints` on the terminal. When a list is used up every
-- write succeeds whole. `wire` is what the socket has taken, `shown` what the terminal has.
pub record Client : Type 0 where
  pub tail : Tail
  pub inbuf : Str
  pub prompt : Bool
  pub stdin_open : Bool
  pub done : Bool
  pub got_int : Bool
  pub got_stop : Bool
  pub sends : List Sent
  pub prints : List Sent
  pub wire : Str
  pub shown : Str

-- `on_signal` is installed for SIGINT and SIGTSTP.
unfoldable pub on_signal : Signal → Client → Client
on_signal sigint s = record s { got_int = true }
on_signal _ s = record s { got_stop = true }

unfoldable pub on_signals : List Signal → Client → Client
on_signals [] s = s
on_signals (sig ∷ sigs) s = on_signals sigs (on_signal sig s)

-- What `send_all` leaves of the answers, the bytes that were taken, and whether the result is 0.
pub record Outcome : Type 0 where
  pub answers : List Sent
  pub taken : Str
  pub ok : Bool

abbrev pub behind : Str → Outcome → Outcome
behind text o = record o { taken = text ++ o.taken }

-- `off < n` is that bytes are left; `write` never takes more than it is given.
unfoldable pub send_all : List Sent → Str → Outcome
send_all [] left = record { answers = []; taken = left; ok = true }
send_all (r ∷ rs) [] = record { answers = r ∷ rs; taken = []; ok = true }
send_all (interrupted ∷ rs) (c ∷ cs) = send_all rs (c ∷ cs)
send_all (broken ∷ rs) (c ∷ cs) = record { answers = rs; taken = []; ok = false }
send_all (sent n ∷ rs) (c ∷ cs) = behind (take n (c ∷ cs)) (send_all rs (drop n (c ∷ cs)))

-- What `snprintf` leaves in the buffer: it is cut to leave room for the NUL.
unfoldable pub message : Str → Str → Str
message prefix body =
    let text = prefix ++ body ++ 10 ∷ [] in
    if leb buf_size (length text) then take (buf_size - 1) text else text

-- No caller reads the result of `send_msg`.
unfoldable pub send_msg : Str → Str → Client → Client
send_msg prefix body s =
    let o = send_all s.sends (message prefix body) in
    record s { sends = o.answers; wire = s.wire ++ o.taken }

unfoldable pub push_byte : ℕ → Tail → Tail
push_byte c t = record { oldest = t.middle; middle = t.newest; newest = c }

unfoldable pub push_tail : Str → Tail → Tail
push_tail [] t = t
push_tail (c ∷ cs) t = push_tail cs (push_byte c t)

unfoldable pub at_prompt : Tail → Bool
at_prompt t = (t.oldest == 10) && (t.middle == b'#') && (t.newest == b' ')

abbrev pub quit_word : Str
quit_word = bytes "quit"

-- The flag is the result: true for 1.
unfoldable pub send_line : Str → Client → Client × Bool
send_line line s =
    if s.prompt
    then (if str_eq line quit_word
        then (s, true)
        else (record (send_msg msg_cmd line s) { prompt = false }, false))
    else (send_msg [] line s, false)

-- The C string at the start of a buffer.
unfoldable pub c_string : Str → Str
c_string [] = []
c_string (c ∷ cs) = if c == 0 then [] else c ∷ c_string cs

-- `done = send_line(sockfd, inbuf, &prompt)`
unfoldable pub typed : Str → Client → Client
typed line s = let (s', quit) = send_line (c_string line) s in record s' { done = quit }

-- The loop over the lines in the buffer. Each round takes a byte at least.
unfoldable pub send_lines : ℕ → Client → Client
send_lines zero s = s
send_lines (suc fuel) s = elim s.done [
  | true ↦ s
  | false ↦ elim (split_line s.inbuf) [
    | none ↦ s
    | some (line, rest) ↦ send_lines fuel (record (typed line s) { inbuf = rest })
  ]
]

abbrev pub send_typed : Client → Client
send_typed s = send_lines (suc (length s.inbuf)) s

-- `if (inlen == sizeof inbuf) inlen = 0;`
unfoldable pub drop_overlong : Client → Client
drop_overlong s = if length s.inbuf == buf_size then record s { inbuf = [] } else s

-- How a part of the loop's body ends: it goes on to the next part, or by `continue` or `break`.
pub data Flow : Type 0 where
  onward restart leave : Flow

-- The two flags at the top of the loop.
unfoldable pub send_int : Client → Client
send_int s = if s.got_int then send_msg msg_ctl (b'c' ∷ []) (record s { got_int = false }) else s

unfoldable pub send_stop : Client → Client
send_stop s = if s.got_stop then send_msg msg_ctl (b'z' ∷ []) (record s { got_stop = false }) else s

-- The bytes that the server sent are printed and tracked.
unfoldable pub show : Str → Client → Client × Flow
show text s =
    let o = send_all s.prints text in
    let s' : Client = record s { prints = o.answers; shown = s.shown ++ o.taken } in
    let tail = push_tail text s.tail in
    if o.ok then (record s' { tail = tail; prompt = at_prompt tail }, onward) else (s', leave)

-- `none` when `pselect` found nothing to read on the socket.
unfoldable pub from_server : Option Read → Client → Client × Flow
from_server none s = (s, onward)
from_server (some (got text)) s = show text s
from_server (some Read.interrupted) s = (s, restart)
from_server (some closed) s = (s, leave)
from_server (some Read.broken) s = (s, leave)

-- `if (inlen > 0)` in the branch of Ctrl-d.
unfoldable pub flush_line : Client → Client
flush_line s = if length s.inbuf == 0 then s else record (typed s.inbuf s) { inbuf = [] }

-- `tty` is `isatty(STDIN_FILENO)`.
unfoldable pub end_of_input : Bool → Client → Client
end_of_input tty s =
    let s' = send_msg msg_ctl (b'd' ∷ []) (flush_line s) in
    if s'.prompt
    then record s' { done = true }
    else if not tty
    then record s' { stdin_open = false }
    else s'

unfoldable pub read_user : Bool → Read → Client → Client × Flow
read_user tty (got text) s =
    (drop_overlong (send_typed (record s { inbuf = s.inbuf ++ text })), onward)
read_user tty closed s = (end_of_input tty s, restart)
read_user tty Read.interrupted s = (s, restart)
read_user tty Read.broken s = (s, leave)

unfoldable pub from_user : Bool → Option Read → Client → Client × Flow
from_user tty none s = (s, onward)
from_user tty (some r) s = if not s.stdin_open then (s, onward) else read_user tty r s

-- What `pselect` comes to: EINTR with the signals that were caught, another error, or what `read`
-- returns on the descriptors that are ready.
pub data Poll : Type 0 where
  caught : List Signal → Poll
  failed : Poll
  ready : (server user : Option Read) → Poll

unfoldable pub after_poll : Bool → Poll → Client → Client × Flow
after_poll tty (caught sigs) s = (on_signals sigs s, restart)
after_poll tty failed s = (s, leave)
after_poll tty (ready server user) s =
    let (s', f) = from_server server s in
    elim f [ onward ↦ from_user tty user s' | restart ↦ (s', restart) | leave ↦ (s', leave) ]

unfoldable pub round : Bool → Poll → Client → Client × Flow
round tty p s = after_poll tty p (send_stop (send_int s))

-- The last `write`, whose result is not read.
unfoldable pub close_client : Client → Client
close_client s =
    let o = send_all s.prints (10 ∷ []) in
    record s { prints = o.answers; shown = s.shown ++ o.taken }

-- The loop, for one result of `pselect` after the other; `none` when it waits for the next.
unfoldable pub client_loop : Bool → List Poll → Client → Option Client
client_loop tty [] s = if s.done then some (close_client s) else none
client_loop tty (p ∷ ps) s = elim s.done [
  | true ↦ some (close_client s)
  | false ↦
      let (s', f) = round tty p s in
      elim f [ leave ↦ some (close_client s') | _ ↦ client_loop tty ps s' ]
]

-- `got_int` and `got_stop` are what the handlers have raised before the loop starts.
unfoldable pub client_init : Bool → Bool → List Sent → List Sent → Client
client_init int stop sends prints = record {
  tail = record { oldest = 10; middle = b'#'; newest = b' ' };
  inbuf = [];
  prompt = true;
  stdin_open = true;
  done = false;
  got_int = int;
  got_stop = stop;
  sends = sends;
  prints = prints;
  wire = [];
  shown = [];
}

unfoldable pub client_run : Bool → List Poll → Bool → Bool → List Sent → List Sent → Option Client
client_run tty ps int stop sends prints = client_loop tty ps (client_init int stop sends prints)
