-- ===== src/Yashd/Input/Framing.antt =====
-- Lines over the socket of Project 2/yashd/server/src/session.c: however the client's bytes are cut
-- into packets, the session reads the lines that the client sent.
use system_prog.Base.{
  ℕ, ◌≤◌, ◌<◌, ◌≡◌, ◌≢◌, refl, ap, ◌∙◌, Bool, true, none, some, List, [], ◌∷◌, ◌++◌, append_assoc,
  sym, arith, Str, length, length-append, All, inl, inr, ◌⊎◌,
}
use system_prog.Yashd.Types.{Session, buf_size}
use system_prog.Yashd.Input.{
  split_line, strip_cr, buf_take_line, Read, got, closed, interrupted, broken, buf_fill, line,
  again, after_fill, fill_round, session_readsocket,
}

abbrev pub NoNewline : Str → Type 0
NoNewline = All (λ c. c ≢ 10)

pub split_line-newline :
    (raw rest : Str) → NoNewline raw → split_line (raw ++ 10 ∷ rest) ≡ some (raw, rest)
unfolding split_line
split_line-newline [] rest h = refl
split_line-newline (c ∷ cs) rest h = ground (arith, split_line-newline cs rest h.1, h.0)

pub split_line-none : (b : Str) → NoNewline b → split_line b ≡ none
unfolding split_line
split_line-none [] h = refl
split_line-none (c ∷ cs) h = ground (arith, split_line-none cs h.1, h.0)

-- The packets that a run of `read` calls returns, with the interrupted calls between them.
abbrev pub Packets : List Read → Type 0
Packets [] = Unit
Packets (got t ∷ rs) = (0 < length t) × Packets rs
Packets (interrupted ∷ rs) = Packets rs
Packets (closed ∷ rs) = ⊥
Packets (broken ∷ rs) = ⊥

abbrev pub joined : List Read → Str
joined [] = []
joined (got t ∷ rs) = t ++ joined rs
joined (_ ∷ rs) = joined rs

-- A text that begins with a line either is a first part of the line without the newline, or holds
-- the whole line.
cut_at :
    (b cs raw rest : Str)
    → NoNewline raw
    → b ++ cs ≡ raw ++ 10 ∷ rest
    → (NoNewline b × (left : Str) × (raw ≡ b ++ left) × (cs ≡ left ++ 10 ∷ rest))
      ⊎ ((tail : Str) × (b ≡ raw ++ 10 ∷ tail) × (tail ++ cs ≡ rest))
cut_at [] cs raw rest h e = inl (tt, raw, refl, e)
cut_at (c ∷ b) cs [] rest h e = inr (b, ground arith, ground arith)
cut_at (c ∷ b) cs (d ∷ raw) rest h e = elim (cut_at b cs raw rest h.1 (ground arith)) [
  | inl (n, left, p, q) ↦ inl ((ground arith, n), left, ground arith, q)
  | inr (tail, p, q) ↦ inr (tail, ground arith, q)
]

take_line-whole :
    (n : ℕ) (s : Session) (raw tail : Str)
    → NoNewline raw
    → length raw < n
    → s.inbuf ≡ raw ++ 10 ∷ tail
    → buf_take_line n s ≡ some (strip_cr raw, record s { inbuf = tail })
unfolding buf_take_line
take_line-whole n s raw tail h k e = ground (arith, split_line-newline raw tail h)

take_line-none : (n : ℕ) (s : Session) → NoNewline s.inbuf → buf_take_line n s ≡ none
unfolding buf_take_line
take_line-none n s h = ground (arith, split_line-none s.inbuf h)

fill_round-got :
    (t : Str) (eintr : Bool) (s : Session)
    → length s.inbuf < buf_size
    → fill_round (got t) eintr s ≡ again eintr (record s { inbuf = s.inbuf ++ t })
unfolding fill_round buf_fill after_fill
fill_round-got t eintr s h = ground arith

fill_round-interrupted :
    (eintr : Bool) (s : Session)
    → length s.inbuf < buf_size
    → fill_round interrupted eintr s ≡ again true s
unfolding fill_round buf_fill after_fill
fill_round-interrupted eintr s h = ground arith

-- What reading a line comes to: of the packets `rs` the call has used a first part, which is enough
-- for it, and the rest of the stream is in the buffer and in the packets that are left.
pub record Received (raw rest : Str) (eintr : Bool) (n : ℕ) (rs : List Read) (s : Session)
    : Type 0 where
  pub used : List Read
  pub left : List Read
  pub buffer : Str
  pub parts : rs ≡ used ++ left
  pub enough : session_readsocket used eintr n s ≡ session_readsocket rs eintr n s
  pub returns :
      session_readsocket rs eintr n s ≡ some (line (strip_cr raw), record s { inbuf = buffer })
  pub stream : buffer ++ joined left ≡ rest

whole_line :
    (rs : List Read) (eintr : Bool) (n : ℕ) (s : Session) (raw tail : Str)
    → NoNewline raw
    → length raw < n
    → s.inbuf ≡ raw ++ 10 ∷ tail
    → session_readsocket rs eintr n s ≡ some (line (strip_cr raw), record s { inbuf = tail })
unfolding session_readsocket
whole_line [] eintr n s raw tail h k e = ground (arith, take_line-whole n s raw tail h k e)
whole_line (r ∷ rs) eintr n s raw tail h k e = ground (arith, take_line-whole n s raw tail h k e)

round_again :
    (r : Read) (rs : List Read) (eintr e : Bool) (n : ℕ) (s t : Session)
    → NoNewline s.inbuf
    → fill_round r eintr s ≡ again e t
    → session_readsocket (r ∷ rs) eintr n s ≡ session_readsocket rs e n t
unfolding session_readsocket
round_again r rs eintr e n s t h k = ground (arith, take_line-none n s h)

Received-whole :
    (rs : List Read) (eintr : Bool) (n : ℕ) (s : Session) (raw rest tail : Str)
    → NoNewline raw
    → length raw < n
    → s.inbuf ≡ raw ++ 10 ∷ tail
    → tail ++ joined rs ≡ rest
    → Received raw rest eintr n rs s
Received-whole rs eintr n s raw rest tail h k e q =
    let r = whole_line rs eintr n s raw tail h k e in
    record {
      used = [];
      left = rs;
      buffer = tail;
      parts = refl;
      enough = whole_line [] eintr n s raw tail h k e ∙ sym r;
      returns = r;
      stream = q;
    }

-- A call of `read` that leaves the session without a line.
Received-step :
    (raw rest : Str) (r : Read) (rs : List Read) (eintr e : Bool) (n : ℕ) (s t : Session)
    → ((ps : List Read) → session_readsocket (r ∷ ps) eintr n s ≡ session_readsocket ps e n t)
    → t ≡ record s { inbuf = t.inbuf }
    → Received raw rest e n rs t
    → Received raw rest eintr n (r ∷ rs) s
Received-step raw rest r rs eintr e n s t next f v = record {
  used = r ∷ v.used;
  left = v.left;
  buffer = v.buffer;
  parts = ap (◌∷◌ r) v.parts;
  enough = next v.used ∙ v.enough ∙ sym (next rs);
  returns =
      next rs ∙ v.returns ∙ ap (λ u. some (line (strip_cr raw), record u { inbuf = v.buffer })) f;
  stream = v.stream;
}

no_line_in_nothing : (left rest : Str) → [] ≢ left ++ 10 ∷ rest
no_line_in_nothing [] rest e = ground arith
no_line_in_nothing (c ∷ cs) rest e = ground arith

shorter : (b left raw : Str) → raw ≡ b ++ left → length b ≤ length raw
shorter b left raw e = omega (arith, ap length e, length-append b left)

-- However the client's bytes are cut into packets and however often a read is interrupted, the
-- session returns the first line that the client has completed, without its newline and one
-- carriage return before it. It reads no further packets than it needs, and the buffer keeps every
-- byte after the line of those it has read, in order. The line and its newline must fit the
-- buffers.
pub session_readsocket-Received :
    (rs : List Read) (eintr : Bool) (n : ℕ) (s : Session) (raw rest : Str)
    → NoNewline raw
    → length raw < buf_size
    → length raw < n
    → Packets rs
    → s.inbuf ++ joined rs ≡ raw ++ 10 ∷ rest
    → Received raw rest eintr n rs s
session_readsocket-Received [] eintr n s raw rest h k l p e =
    elim (cut_at s.inbuf [] raw rest h e) [
      | inl (_, left, _, q) ↦ absurd (no_line_in_nothing left rest q)
      | inr (tail, f, q) ↦ Received-whole [] eintr n s raw rest tail h l f q
    ]
session_readsocket-Received (got t ∷ rs) eintr n s raw rest h k l p e =
    elim (cut_at s.inbuf (t ++ joined rs) raw rest h e) [
      | inl (b, left, f, _) ↦
          let s' : Session = record s { inbuf = s.inbuf ++ t } in
          let small : length s.inbuf < buf_size = omega (arith, shorter s.inbuf left raw f) in
          Received-step raw rest (got t) rs eintr eintr n s s'
            (λ ps. round_again (got t) ps eintr eintr n s s' b (fill_round-got t eintr s small))
            refl
            (session_readsocket-Received rs eintr n s' raw rest h k l p.1
              (append_assoc s.inbuf t (joined rs) ∙ e))
      | inr (tail, f, q) ↦ Received-whole (got t ∷ rs) eintr n s raw rest tail h l f q
    ]
session_readsocket-Received (interrupted ∷ rs) eintr n s raw rest h k l p e =
    elim (cut_at s.inbuf (joined rs) raw rest h e) [
      | inl (b, left, f, _) ↦
          let small : length s.inbuf < buf_size = omega (arith, shorter s.inbuf left raw f) in
          Received-step raw rest interrupted rs eintr true n s s
            (λ ps.
              round_again interrupted ps eintr true n s s b (fill_round-interrupted eintr s small))
            refl (session_readsocket-Received rs true n s raw rest h k l p e)
      | inr (tail, f, q) ↦ Received-whole (interrupted ∷ rs) eintr n s raw rest tail h l f q
    ]
session_readsocket-Received (closed ∷ rs) eintr n s raw rest h k l p e = absurd p
session_readsocket-Received (broken ∷ rs) eintr n s raw rest h k l p e = absurd p

-- The packets of a text that come with no interruption.
abbrev pub packets_of : List Str → List Read
packets_of [] = []
packets_of (t ∷ ts) = got t ∷ packets_of ts

abbrev pub text_of : List Str → Str
text_of [] = []
text_of (t ∷ ts) = t ++ text_of ts
