-- ===== src/Yashd/Client/Tests.antt =====
-- Tests of Project 2/yashd/client, and its theorems at concrete inputs.
use system_prog.Base.{
  ◌<◌, ◌≡◌, refl, true, false, Option, none, some, List, [], ◌∷◌, arith, Str, bytes, length,
}
use system_prog.Yashd.Types.{buf_size, Session, sigint}
use system_prog.Yashd.Input.{Read, got, session_readsocket, split_line}
use system_prog.Yashd.Input
use system_prog.Yashd.Session.{Turn, after_read}
use system_prog.Yashd.Client.{
  Client, client_init, client_loop, client_run, Poll, caught, ready, round, after_poll, send_typed,
  send_lines, typed, send_line, send_msg, message, send_all, c_string, from_server, from_user, show,
  push_tail, push_byte, at_prompt, read_user, on_signals, on_signal, send_int, send_stop,
  drop_overlong, close_client,
}
use system_prog.Yashd.Client.Tracking.{start, next}
use system_prog.Yashd.Client.Keyed.{IsPrompted, HandledPoll, client_run-Tracks}
use system_prog.Yashd.Client.Lines.{IsLine, sent_lines, send_typed-keyed}
use system_prog.Yashd.Client.Served.{handled, typed_command-runs}

abbrev at_rest : Client
at_rest = record {
  tail = record { oldest = 10; middle = b'#'; newest = b' ' };
  inbuf = bytes "ls\n";
  prompt = true;
  stdin_open = true;
  done = false;
  got_int = false;
  got_stop = false;
  sends = [];
  prints = [];
  wire = [];
  shown = [];
}

IsLine-ls : IsLine (bytes "ls")
IsLine-ls = record { no_newline = ground arith; no_nul = ground arith; short = omega arith }

IsLine-cat : IsLine (bytes "cat")
IsLine-cat = record { no_newline = ground arith; no_nul = ground arith; short = omega arith }

IsLine-hello : IsLine (bytes "hello")
IsLine-hello = record { no_newline = ground arith; no_nul = ground arith; short = omega arith }

abbrev server : Session
server = record {
  cfd = 4;
  table = [];
  fg = none;
  inbuf = [];
  quit = false;
  sends = [];
  feeds = [];
  trace = [];
}

-- The line reaches the server in two packets, with an interrupted `read` between them.
abbrev arriving : Turn
arriving = record {
  polls = λ jid. [];
  reads = got (bytes "CM") ∷ Input.interrupted ∷ got (bytes "D ls\n") ∷ [];
  eintr = false;
  rounds = [];
  spawn = record { inpipe = none; pipe = none; fork = λ i. none; memory = true };
}

-- An answer of the server that comes in two parts, behind a Ctrl-c.
abbrev polls : List Poll
polls =
    caught (sigint ∷ [])
    ∷ ready (some (got (bytes "^C\n"))) none
    ∷ ready (some (got (bytes "# "))) (some (got (bytes "ls\ncat")))
    ∷ ready (some Input.closed) none
    ∷ []

abbrev ends_with : Option Client → Str × Str
ends_with none = ([], [])
ends_with (some c) = (c.wire, c.shown)

client_run_test :
    ends_with (client_run true polls false false [] [])
    ≡ (bytes "CTL c\nCMD ls\n", bytes "^C\n# \n")
unfolding client_run client_loop client_init round after_poll on_signals on_signal send_int
    send_stop from_server from_user read_user show push_tail push_byte at_prompt send_all send_msg
    message send_lines typed send_line c_string split_line drop_overlong close_client
client_run_test = refl

abbrev first_poll : Poll
first_poll = ready (some (got (bytes "hello\n# "))) (some (got (bytes "l")))

abbrev first : Client
first = (round true first_poll (client_init false false [] [])).0

-- The server's next line takes the prompt away before the user's line is handled.
abbrev second_poll : Poll
second_poll = ready (some (got (bytes "done\n"))) (some (got (bytes "s\n")))

client_run-Tracks_example :
    (length first.inbuf < buf_size)
    × IsPrompted first
    × HandledPoll true second_poll first (round true second_poll first)
unfolding client_init round after_poll send_int send_stop from_server from_user read_user show
    push_tail push_byte at_prompt send_all send_msg message send_lines typed send_line c_string
    split_line drop_overlong
client_run-Tracks_example =
    client_run-Tracks true false false [] [] first
      (next first_poll start refl (omega arith) (λ e. ground arith)) second_poll

send_typed-keyed_example :
    send_typed (record at_rest { inbuf = bytes "cat\nhello\nwor" })
    ≡ sent_lines
        (bytes "cat" ∷ bytes "hello" ∷ [])
        (bytes "wor")
        (record at_rest { inbuf = bytes "cat\nhello\nwor" })
send_typed-keyed_example =
    send_typed-keyed (bytes "cat" ∷ bytes "hello" ∷ []) (bytes "wor")
      (record at_rest { inbuf = bytes "cat\nhello\nwor" }) (IsLine-cat, (IsLine-hello, tt))
      (ground arith) (ground arith) refl refl refl

typed_command-runs_example :
    after_read arriving (session_readsocket arriving.reads arriving.eintr buf_size server)
    ≡ handled arriving (bytes "ls") server
unfolding Input.strip_cr send_lines typed send_line c_string split_line send_msg message send_all
typed_command-runs_example =
    typed_command-runs at_rest (bytes "ls") arriving server IsLine-ls (ground arith) refl refl refl
      refl refl (omega arith) refl
