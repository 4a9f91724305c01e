-- ===== src/Yashd/Session/Drain.antt =====
-- The loop of session_pump over the lines of the buffer: Project 2/yashd/server/src/session.c.
use system_prog.Base.{
  ℕ, zero, suc, ◌<◌, ◌≡◌, none, some, [], ◌∷◌, arith, Str, length, Option-cases, inl, inr,
}
use system_prog.Yashd.Types.{buf_size, Session}
use system_prog.Yashd.Input.{split_line, buf_take_line}
use system_prog.Yashd.Dispatch.{dispatch_running, drain, drain_all}
use system_prog.Yashd.Session.Running.{dispatch_running-Keeps}

pub split_line-shorter :
    (text l rest : Str) → split_line text ≡ some (l, rest) → length rest < length text
unfolding split_line
split_line-shorter [] l rest h = ground arith
split_line-shorter (c ∷ cs) l rest h = elim (Option-cases (split_line cs)) [
  | inl e ↦ ground arith
  | inr ((l', rest'), e) ↦ ground (arith, split_line-shorter cs l' rest' e)
]

take_line-shorter :
    (n : ℕ) (s s' : Session) (text : Str)
    → buf_take_line n s ≡ some (text, s')
    → length s'.inbuf < length s.inbuf
unfolding buf_take_line
take_line-shorter n s s' text h = elim (Option-cases (split_line s.inbuf)) [
  | inl e ↦ ground arith
  | inr ((l, rest), e) ↦ ground (arith, split_line-shorter s.inbuf l rest e)
]

take_line-none : (n : ℕ) (s : Session) → buf_take_line n s ≡ none → split_line s.inbuf ≡ none
unfolding buf_take_line
take_line-none n s h = ground arith

drain-empties : (f : ℕ) (s : Session) → length s.inbuf < f → split_line (drain f s).inbuf ≡ none
unfolding drain
drain-empties zero s h = ground (arith, h)
drain-empties (suc f) s h = elim (Option-cases (buf_take_line buf_size s)) [
  | inl e ↦ rw (e, drain) (take_line-none buf_size s e)
  | inr ((text, s'), e) ↦
      let shorter = take_line-shorter buf_size s s' text e in
      let keeps = dispatch_running-Keeps text s' in
      rw (e, drain) (drain-empties f (dispatch_running text s') (rw keeps.inbuf (omega arith)))
]

-- The loop over the lines that have arrived, on a fuel of one more than the bytes of the buffer,
-- runs to its end: no complete line is left behind for the command that follows the job.
pub drain_all-empties : (s : Session) → split_line (drain_all s).inbuf ≡ none
drain_all-empties s = drain-empties (suc (length s.inbuf)) s (omega arith)
