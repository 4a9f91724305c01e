-- ===== src/Yashd/Client/Served.antt =====
-- The client of Project 2/yashd/client/src/client.c and the session of
-- Project 2/yashd/server/src/session.c on the two ends of a socket.
use system_prog.Base.{
  ℕ, ◌≡◌, ◌≢◌, refl, ap, ap₂, sym, subst, ◌∙◌, Bool, true, false, not, Option, none, some, [], ◌∷◌,
  ◌++◌, append-nil, arith, Str,
}
use system_prog.Yashd.Types.{buf_size, msg_cmd, Session}
use system_prog.Yashd.Input.{strip_cr, line, session_readsocket}
use system_prog.Yashd.Input.Framing.{Packets, joined, session_readsocket-Received}
use system_prog.Yashd.Dispatch.{has_prefix}
use system_prog.Yashd.Session.{Turn, handle_cmd, dispatch, after_read}
use system_prog.Yashd.Client.{Client, quit_word, send_typed}
use system_prog.Yashd.Client.Lines.{IsLine, StaysOpen, messages, sent_lines, send_typed-keyed}

append_cancel : (w a b : Str) → w ++ a ≡ w ++ b → a ≡ b
append_cancel [] a b e = e
append_cancel (c ∷ w) a b e = append_cancel w a b (ground (arith, e))

strip_cr-keeps : (c d : ℕ) (cs : Str) → strip_cr (c ∷ d ∷ cs) ≡ c ∷ strip_cr (d ∷ cs)
unfolding strip_cr
strip_cr-keeps c d cs = refl

strip_cr-command : (l : Str) → strip_cr (msg_cmd ++ l) ≡ msg_cmd ++ strip_cr l
unfolding strip_cr
strip_cr-command [] = refl
strip_cr-command (c ∷ l) = refl

-- What the session does with a command: handle_cmd, then the test of `quit`.
abbrev pub handled : Turn → Str → Session → Option (Session × Bool)
handled t l s = elim (handle_cmd t.spawn t.rounds l s) [
  | none ↦ none
  | some s' ↦ some (s', not s'.quit)
]

nothing_left : (a b : Str) → a ++ b ≡ [] → a ≡ []
nothing_left [] b e = refl
nothing_left (c ∷ a) b e = ground arith

after_read-command :
    (t : Turn) (l : Str) (s : Session)
    → after_read t (some (line (msg_cmd ++ l), s)) ≡ handled t l s
unfolding after_read dispatch has_prefix
after_read-command t l s = refl

-- A line that is typed at the client's prompt is run by the server as that command, and nothing is
-- left of it in the server's buffer: whatever packets its bytes arrive in and however often a read
-- is interrupted, the session reads the message and calls handle_cmd with the line, less a carriage
-- return at its end. The session's buffer is empty before, and the line is not quit, holds no NUL
-- and fits a message.
pub typed_command-runs :
    (c : Client) (raw : Str) (t : Turn) (s : Session)
    → IsLine raw
    → raw ≢ quit_word
    → c.prompt ≡ true
    → c.done ≡ false
    → c.sends ≡ []
    → c.inbuf ≡ raw ++ 10 ∷ []
    → s.inbuf ≡ []
    → Packets t.reads
    → c.wire ++ joined t.reads ≡ (send_typed c).wire
    → after_read t (session_readsocket t.reads t.eintr buf_size s) ≡ handled t (strip_cr raw) s
typed_command-runs c raw t s h q p d e i j k w =
    let sent : send_typed c ≡ sent_lines (raw ∷ []) [] c =
      send_typed-keyed (raw ∷ []) [] c (h, tt) tt (subst (λ b. StaysOpen b (raw ∷ [])) (sym p) q) d
        e (i ∙ sym (append-nil (raw ++ 10 ∷ []))) in
    let stream : joined t.reads ≡ msg_cmd ++ raw ++ 10 ∷ [] =
      append_cancel c.wire (joined t.reads) (msg_cmd ++ raw ++ 10 ∷ [])
        (w ∙ ap (λ u. u.wire) sent ∙ ap (λ b. c.wire ++ messages b (raw ∷ [])) p) in
    let r =
      session_readsocket-Received t.reads t.eintr buf_size s (msg_cmd ++ raw) []
        (
          (λ z. omega arith),
          ((λ z. omega arith), ((λ z. omega arith), ((λ z. omega arith), h.no_newline))),
        )
        (omega (arith, h.short)) (omega (arith, h.short)) k
        (ap (λ b. b ++ joined t.reads) j ∙ stream) in
    ap (after_read t) (
      r.returns
      ∙ ap₂ (λ l b. some (line l, record s { inbuf = b })) (strip_cr-command raw)
          (nothing_left r.buffer (joined r.left) r.stream ∙ sym j))
    ∙ after_read-command t (strip_cr raw) s
