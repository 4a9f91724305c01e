-- ===== src/Yashd/Client/Kept.antt =====
-- What the parts of the loop of Project 2/yashd/client/src/client.c do to the prompt and the buffer.
use system_prog.Base.{
  take-append-drop, if_both, ℕ, zero, suc, ◌-◌, ◌≤◌, ◌≡◌, refl, ap, sym, subst, ◌∙◌, Bool, true,
  false, none, some, List, [], ◌∷◌, ◌++◌, append_assoc, append-nil, arith, Str, length, take, drop,
  not, if◌then◌else◌, ◌==◌, Bool-cases, Option-cases, inl, inr,
}
use system_prog.Yashd.Types.{Sent, sent, interrupted, broken, yash_prompt, buf_size, msg_ctl}
use system_prog.Yashd.Input.{split_line}
use system_prog.Yashd.Session.Drain.{split_line-shorter}
use system_prog.Yashd.Client.{
  Tail, Client, send_all, send_msg, push_byte, push_tail, at_prompt, send_line, c_string, typed,
  send_lines, send_typed, drop_overlong, flush_line, end_of_input,
}

abbrev pub tail_bytes : Tail → Str
tail_bytes t = t.oldest ∷ t.middle ∷ t.newest ∷ []

-- `text` is an ending of `stream`.
abbrev pub Ends : Str → Str → Type 0
Ends stream text = (before : Str) × (stream ≡ before ++ text)

pub push_tail-Ends :
    (text stream : Str) (t : Tail)
    → Ends stream (tail_bytes t)
    → Ends (stream ++ text) (tail_bytes (push_tail text t))
unfolding push_tail push_byte
push_tail-Ends [] stream t h = (h.0, append-nil stream ∙ h.1)
push_tail-Ends (c ∷ cs) stream t (before, e) =
    let (b, k) = push_tail-Ends cs (stream ++ c ∷ []) (push_byte c t) (
      before ++ t.oldest ∷ [],
      ap (λ z. z ++ c ∷ []) e
          ∙ append_assoc before (tail_bytes t) (c ∷ [])
          ∙ sym (append_assoc before (t.oldest ∷ []) (tail_bytes (push_byte c t))),
    ) in
    (b, sym (append_assoc stream (c ∷ []) cs) ∙ k)

pub at_prompt-bytes : (t : Tail) → at_prompt t ≡ true → tail_bytes t ≡ yash_prompt
unfolding at_prompt
at_prompt-bytes t h = ground arith

pub send_all-whole :
    (rs : List Sent) (text : Str) → (send_all rs text).ok ≡ true → (send_all rs text).taken ≡ text
unfolding send_all
send_all-whole [] text h = refl
send_all-whole (sent n ∷ rs) [] h = refl
send_all-whole (interrupted ∷ rs) [] h = refl
send_all-whole (broken ∷ rs) [] h = refl
send_all-whole (sent n ∷ rs) (c ∷ cs) h =
    ap (◌++◌ (take n (c ∷ cs))) (send_all-whole rs (drop n (c ∷ cs)) h)
    ∙ take-append-drop n (c ∷ cs)
send_all-whole (interrupted ∷ rs) (c ∷ cs) h = send_all-whole rs (c ∷ cs) h
send_all-whole (broken ∷ rs) (c ∷ cs) h = ground arith

-- The client has a prompt only if the server's bytes end with one; the server's first prompt is
-- taken for granted.
pub record IsTracking (s : Client) : Type 0 where
  pub stream : Ends (yash_prompt ++ s.shown) (tail_bytes s.tail)
  pub prompted : s.prompt ≡ true → at_prompt s.tail ≡ true

-- What the parts of the loop that do not read the socket keep.
record Keeps (s t : Client) : Type 0 where
  tail : t.tail ≡ s.tail
  shown : t.shown ≡ s.shown
  prompt : t.prompt ≡ true → s.prompt ≡ true

Keeps-Keeps : (s t u : Client) → Keeps s t → Keeps t u → Keeps s u
Keeps-Keeps s t u h k = record {
  tail = k.tail ∙ h.tail;
  shown = k.shown ∙ h.shown;
  prompt = λ e. h.prompt (k.prompt e);
}

IsTracking-Keeps : (s t : Client) → Keeps s t → IsTracking s → IsTracking t
IsTracking-Keeps s t k h = record {
  stream = (
    h.stream.0,
    ap (◌++◌ yash_prompt) k.shown ∙ h.stream.1 ∙ ap (λ u. h.stream.0 ++ tail_bytes u) (sym k.tail),
  );
  prompted = λ e. ap at_prompt k.tail ∙ h.prompted (k.prompt e);
}

send_line-Keeps : (line : Str) (s : Client) → Keeps s (send_line line s).0
unfolding send_line send_msg
send_line-Keeps line s = elim (Bool-cases s.prompt) [
  | inl e ↦ record { tail = ground arith; shown = ground arith; prompt = λ _. e }
  | inr e ↦ record { tail = ground arith; shown = ground arith; prompt = ground arith }
]

typed-Keeps : (line : Str) (s : Client) → Keeps s (typed line s)
unfolding typed
typed-Keeps line s =
    let k = send_line-Keeps (c_string line) s in
    record { tail = k.tail; shown = k.shown; prompt = k.prompt }

send_msg-inbuf : (prefix body : Str) (s : Client) → (send_msg prefix body s).inbuf ≡ s.inbuf
unfolding send_msg
send_msg-inbuf prefix body s = refl

pub send_lines-done : (fuel : ℕ) (s : Client) → s.done ≡ true → send_lines fuel s ≡ s
unfolding send_lines
send_lines-done zero s e = refl
send_lines-done (suc fuel) s e = ground arith

pub send_lines-none : (fuel : ℕ) (s : Client) → split_line s.inbuf ≡ none → send_lines fuel s ≡ s
unfolding send_lines
send_lines-none zero s n = refl
send_lines-none (suc fuel) s n = elim (Bool-cases s.done) [
  | inl e ↦ ground arith
  | inr e ↦ ground arith
]

pub send_lines-step :
    (fuel : ℕ) (s : Client) (line rest : Str)
    → s.done ≡ false
    → split_line s.inbuf ≡ some (line, rest)
    → send_lines (suc fuel) s ≡ send_lines fuel (record (typed line s) { inbuf = rest })
unfolding send_lines
send_lines-step fuel s line rest e f = ground arith

-- What the loop over the lines keeps: it holds before a round and after it.
send_lines-induction :
    (P : Client → Type 0)
    → ((s : Client) (line rest : Str)
        → split_line s.inbuf ≡ some (line, rest)
        → P s
        → P (record (typed line s) { inbuf = rest }))
    → (fuel : ℕ) (s : Client) → P s
    → P (send_lines fuel s)
unfolding send_lines
send_lines-induction P step zero s h = h
send_lines-induction P step (suc fuel) s h = elim (Bool-cases s.done) [
  | inl e ↦ subst P (sym (send_lines-done (suc fuel) s e)) h
  | inr e ↦ elim (Option-cases (split_line s.inbuf)) [
    | inl n ↦ subst P (sym (send_lines-none (suc fuel) s n)) h
    | inr ((line, rest), f) ↦ subst P (sym (send_lines-step fuel s line rest e f)) (
        send_lines-induction P step fuel (record (typed line s) { inbuf = rest })
          (step s line rest f h))
  ]
]

-- The bytes typed fit the buffer, with a place left for a NUL or without.
pub record IsClient (limit : ℕ) (s : Client) : Type 0 where
  pub tracking : IsTracking s
  pub room : length s.inbuf ≤ limit

IsClient-Keeps :
    (n : ℕ) (s t : Client)
    → Keeps s t
    → length t.inbuf ≤ length s.inbuf
    → IsClient n s
    → IsClient n t
IsClient-Keeps n s t k l h = record {
  tracking = IsTracking-Keeps s t k h.tracking;
  room = omega (arith, h.room);
}

pub unmoved :
    {n : ℕ} {s : Client} (t : Client)
    → IsClient n s
    → t.tail ≡ s.tail
    → t.shown ≡ s.shown
    → t.prompt ≡ s.prompt
    → t.inbuf ≡ s.inbuf
    → IsClient n t
unmoved {n} {s} t h a b c d =
    IsClient-Keeps n s t (record { tail = a; shown = b; prompt = λ e. sym c ∙ e })
      (omega (arith, ap length d)) h

typed-IsClient :
    (n : ℕ) (s : Client) (line rest : Str)
    → length rest ≤ length s.inbuf
    → IsClient n s
    → IsClient n (record (typed line s) { inbuf = rest })
typed-IsClient n s line rest l h =
    let k = typed-Keeps line s in
    IsClient-Keeps n s (record (typed line s) { inbuf = rest })
      (record { tail = k.tail; shown = k.shown; prompt = k.prompt }) l h

pub send_typed-IsClient : (n : ℕ) (s : Client) → IsClient n s → IsClient n (send_typed s)
send_typed-IsClient n s h =
    send_lines-induction (IsClient n)
      (λ u line rest f k.
        typed-IsClient n u line rest (omega (arith, split_line-shorter u.inbuf line rest f)) k)
      (suc (length s.inbuf)) s h

send_msg-IsClient :
    (n : ℕ) (prefix body : Str) (s : Client) → IsClient n s → IsClient n (send_msg prefix body s)
unfolding send_msg
send_msg-IsClient n prefix body s h =
    IsClient-Keeps n s (send_msg prefix body s)
      (record { tail = refl; shown = refl; prompt = λ e. e }) (omega arith) h

pub drop_overlong-IsClient :
    (s : Client) → IsClient buf_size s → IsClient (buf_size - 1) (drop_overlong s)
unfolding drop_overlong
drop_overlong-IsClient s h = elim (Bool-cases (length s.inbuf == buf_size)) [
  | inl e ↦ rw e (record {
    tracking = record { stream = h.tracking.stream; prompted = h.tracking.prompted };
    room = omega arith;
  })
  | inr e ↦ rw e (record { tracking = h.tracking; room = ground (arith, h.room) })
]

flush_line-IsClient : (n : ℕ) (s : Client) → IsClient n s → IsClient n (flush_line s)
unfolding flush_line
flush_line-IsClient n s h = elim (Bool-cases (length s.inbuf == 0)) [
  | inl e ↦ rw e h
  | inr e ↦ rw e (typed-IsClient n s s.inbuf [] (omega arith) h)
]

pub end_of_input-IsClient :
    (n : ℕ) (tty : Bool) (s : Client) → IsClient n s → IsClient n (end_of_input tty s)
unfolding end_of_input
end_of_input-IsClient n tty s h =
    let s' = send_msg msg_ctl (b'd' ∷ []) (flush_line s) in
    let k = send_msg-IsClient n msg_ctl (b'd' ∷ []) (flush_line s) (flush_line-IsClient n s h) in
    let over : IsClient n (record s' { done = true }) =
      unmoved (record s' { done = true }) k refl refl refl refl in
    let shut : IsClient n (record s' { stdin_open = false }) =
      unmoved (record s' { stdin_open = false }) k refl refl refl refl in
    if_both (IsClient n) s'.prompt (record s' { done = true })
      (if not tty then record s' { stdin_open = false } else s') (λ _. over)
      (λ _.
        if_both (IsClient n) (not tty) (record s' { stdin_open = false }) s' (λ _. shut) (λ _. k))
