-- ===== src/Yashd/Client/Lines.antt =====
-- The lines that Project 2/yashd/client/src/client.c takes from the keyboard and puts on the socket.
use system_prog.Base.{
  ℕ, zero, suc, ◌+◌, ◌≤◌, ◌<◌, ◌≡◌, ◌≢◌, refl, ap, ap₂, sym, subst, ◌∙◌, Bool, true, false, some,
  List, [], ◌∷◌, ◌++◌, append_assoc, append-nil, arith, Str, length, length-append, All, str_eq,
  str_eq-eq, leb, Bool-cases, inl, inr,
}
use system_prog.Yashd.Types.{buf_size, msg_cmd}
use system_prog.Yashd.Input.{split_line}
use system_prog.Yashd.Input.Framing.{NoNewline, split_line-newline, split_line-none}
use system_prog.Yashd.Client.{
  Client, send_all, message, send_msg, quit_word, send_line, c_string, typed, send_lines,
  send_typed,
}
use system_prog.Yashd.Client.Kept.{send_lines-none, send_lines-step}

-- A line that is typed: no newline and no NUL in it, and short enough for the message.
pub record IsLine (line : Str) : Type 0 where
  pub no_newline : NoNewline line
  pub no_nul : All (λ c. c ≢ 0) line
  pub short : 5 + length line < buf_size

-- The lines with their newlines, as they are typed.
abbrev pub keyed : List Str → Str
keyed [] = []
keyed (l ∷ ls) = l ++ 10 ∷ keyed ls

-- The same lines on the socket: the first one is a command if there is a prompt, and every other
-- is input.
abbrev pub messages : Bool → List Str → Str
messages prompt [] = []
messages true (l ∷ ls) = msg_cmd ++ l ++ 10 ∷ messages false ls
messages false (l ∷ ls) = l ++ 10 ∷ messages false ls

abbrev pub prompt_after : Bool → List Str → Bool
prompt_after prompt [] = prompt
prompt_after prompt (l ∷ ls) = false

-- The first line does not end the session.
abbrev pub StaysOpen : Bool → List Str → Type 0
StaysOpen true (l ∷ ls) = l ≢ quit_word
StaysOpen _ _ = Unit

c_string-whole : (l : Str) → All (λ c. c ≢ 0) l → c_string l ≡ l
unfolding c_string
c_string-whole [] h = refl
c_string-whole (c ∷ l) h = ground (arith, c_string-whole l h.1, h.0)

leb-false : (a b : ℕ) → b < a → leb a b ≡ false
leb-false a b h = ground arith

message-whole :
    (prefix l : Str) → length prefix + length l < 4095 → message prefix l ≡ prefix ++ l ++ 10 ∷ []
unfolding message
message-whole prefix l h =
    let k : length (prefix ++ l ++ 10 ∷ []) < buf_size =
      omega (arith, length-append prefix l, length-append (prefix ++ l) (10 ∷ [])) in
    rw (leb-false buf_size (length (prefix ++ l ++ 10 ∷ [])) k) refl

str_eq-ne : (a b : Str) → a ≢ b → str_eq a b ≡ false
str_eq-ne a b h = elim (Bool-cases (str_eq a b)) [
  | inl e ↦ absurd (h (str_eq-eq a b e))
  | inr e ↦ e
]

-- What a line leaves of the client's state.
typed-prompt :
    (l : Str) (s : Client)
    → IsLine l
    → l ≢ quit_word
    → s.prompt ≡ true
    → s.sends ≡ []
    → typed l s ≡ record s {
      done = false;
      prompt = false;
      sends = [];
      wire = s.wire ++ (msg_cmd ++ l ++ 10 ∷ []);
    }
unfolding typed send_line send_msg send_all
typed-prompt l s h q p e =
    rw
      (
        c_string-whole l h.no_nul,
        p,
        str_eq-ne l quit_word q,
        e,
        message-whole msg_cmd l (omega (arith, h.short)),
      )
      refl

typed-running :
    (l : Str) (s : Client)
    → IsLine l
    → s.prompt ≡ false
    → s.sends ≡ []
    → typed l s ≡ record s { done = false; sends = []; wire = s.wire ++ (l ++ 10 ∷ []) }
unfolding typed send_line send_msg send_all
typed-running l s h p e =
    rw (c_string-whole l h.no_nul, p, e, message-whole [] l (omega (arith, h.short))) refl

-- What a run of lines leaves of the client's state.
abbrev pub sent_lines : List Str → Str → Client → Client
sent_lines ls rest s = record s {
  inbuf = rest;
  prompt = prompt_after s.prompt ls;
  done = false;
  sends = [];
  wire = s.wire ++ messages s.prompt ls;
}

prompt_after-false : (ls : List Str) → prompt_after false ls ≡ false
prompt_after-false [] = refl
prompt_after-false (l ∷ ls) = refl

message-append :
    (w prefix l m : Str) → (w ++ (prefix ++ l ++ 10 ∷ [])) ++ m ≡ w ++ (prefix ++ l ++ 10 ∷ m)
message-append w prefix l m =
    append_assoc w (prefix ++ l ++ 10 ∷ []) m ∙ ap (◌++◌ w) (append_assoc (prefix ++ l) (10 ∷ []) m)

-- One message and then the rest are the messages of all the lines.
sent_lines-step :
    (w prefix l : Str) (ls : List Str) (rest : Str) (s : Client)
    → w ≡ s.wire ++ (prefix ++ l ++ 10 ∷ [])
    → prefix ++ l ++ 10 ∷ messages false ls ≡ messages s.prompt (l ∷ ls)
    → sent_lines ls rest
        (record s { inbuf = rest; prompt = false; done = false; sends = []; wire = w })
      ≡ sent_lines (l ∷ ls) rest s
sent_lines-step w prefix l ls rest s e m =
    ap₂ (λ b v. record s { inbuf = rest; prompt = b; done = false; sends = []; wire = v })
      (prompt_after-false ls)
      (ap (λ v. v ++ messages false ls) e
        ∙ message-append s.wire prefix l (messages false ls)
        ∙ ap (◌++◌ s.wire) m)

send_lines-keyed :
    (fuel : ℕ) (ls : List Str) (rest : Str) (s : Client)
    → length ls < fuel
    → All IsLine ls
    → NoNewline rest
    → StaysOpen s.prompt ls
    → s.done ≡ false
    → s.sends ≡ []
    → s.inbuf ≡ keyed ls ++ rest
    → send_lines fuel s ≡ sent_lines ls rest s
send_lines-keyed zero ls rest s f h n o d e i = absurd (omega arith)
send_lines-keyed (suc fuel) [] rest s f h n o d e i =
    send_lines-none (suc fuel) s (split_line-none s.inbuf (subst NoNewline (sym i) n))
    ∙ rw (append-nil s.wire, sym d, sym e, sym i) refl
send_lines-keyed (suc fuel) (l ∷ ls) rest s f h n o d e i =
    let left = keyed ls ++ rest in
    let found : split_line s.inbuf ≡ some (l, left) =
      ap split_line (i ∙ append_assoc l (10 ∷ keyed ls) rest)
      ∙ split_line-newline l left h.0.no_newline in
    send_lines-step fuel s l left d found ∙ elim (Bool-cases s.prompt) [
      | inl p ↦
          let w = s.wire ++ (msg_cmd ++ l ++ 10 ∷ []) in
          let u : Client = record s { done = false; prompt = false; sends = []; wire = w } in
          ap (λ v. send_lines fuel (record v { inbuf = left }))
            (typed-prompt l s h.0 (subst (λ b. StaysOpen b (l ∷ ls)) p o) p e)
          ∙ send_lines-keyed fuel ls rest (record u { inbuf = left }) (omega arith) h.1 n tt refl
              refl refl
          ∙ sent_lines-step w msg_cmd l ls rest s refl (ap (λ b. messages b (l ∷ ls)) (sym p))
      | inr p ↦
          let w = s.wire ++ (l ++ 10 ∷ []) in
          let u : Client = record s { done = false; prompt = false; sends = []; wire = w } in
          ap (λ v. send_lines fuel (record v { inbuf = left }))
            (typed-running l s h.0 p e
              ∙ ap (λ b. record s { done = false; prompt = b; sends = []; wire = w }) p)
          ∙ send_lines-keyed fuel ls rest (record u { inbuf = left }) (omega arith) h.1 n tt refl
              refl refl
          ∙ sent_lines-step w [] l ls rest s refl (ap (λ b. messages b (l ∷ ls)) (sym p))
    ]

keyed-length : (ls : List Str) (rest : Str) → length ls ≤ length (keyed ls ++ rest)
keyed-length [] rest = omega arith
keyed-length (l ∷ ls) rest = omega (
  arith,
  length-append l (10 ∷ keyed ls),
  length-append (l ++ 10 ∷ keyed ls) rest,
  length-append (keyed ls) rest,
  keyed-length ls rest,
)

-- When complete lines and the start of another are in the client's buffer, its loop sends each of
-- the lines with its newline, in order, and keeps the rest: the first of them as a CMD message if
-- there is a prompt, and each of the others as it is, without waiting for the server to prompt
-- again. The lines hold no NUL and fit a message, the first one at a prompt is not quit, and the
-- socket takes all that it is given.
pub send_typed-keyed :
    (ls : List Str) (rest : Str) (s : Client)
    → All IsLine ls
    → NoNewline rest
    → StaysOpen s.prompt ls
    → s.done ≡ false
    → s.sends ≡ []
    → s.inbuf ≡ keyed ls ++ rest
    → send_typed s ≡ sent_lines ls rest s
send_typed-keyed ls rest s h n o d e i =
    send_lines-keyed (suc (length s.inbuf)) ls rest s
      (omega (arith, keyed-length ls rest, ap length i)) h n o d e i
