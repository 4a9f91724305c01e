-- ===== src/Yashd/Output/Delivery.antt =====
-- What reaches the client of what `session_write` is given.
use system_prog.Base.{
  ℕ, zero, suc, ◌≡◌, refl, ap, sym, ◌∙◌, Bool, true, false, List, [], ◌∷◌, ◌++◌, append_assoc,
  append-nil, arith, Str, length, take, drop, ◌==◌,
}
use system_prog.Yashd.Types.{
  Session, Effect, deliver, kill_group, close_fd, feed, spawn, log, Sent, sent, interrupted, broken,
  emit,
}
use system_prog.Yashd.Output.{write_loop, session_write}

-- The bytes on the socket.
abbrev pub delivered : List Effect → Str
delivered [] = []
delivered (deliver s ∷ es) = s ++ delivered es
delivered (_ ∷ es) = delivered es

pub delivered-append : (es fs : List Effect) → delivered (es ++ fs) ≡ delivered es ++ delivered fs
delivered-append [] fs = refl
delivered-append (deliver s ∷ es) fs =
    ap (◌++◌ s) (delivered-append es fs) ∙ sym (append_assoc s (delivered es) (delivered fs))
delivered-append (kill_group g k ∷ es) fs = delivered-append es fs
delivered-append (close_fd f ∷ es) fs = delivered-append es fs
delivered-append (feed f t ∷ es) fs = delivered-append es fs
delivered-append (spawn p g ∷ es) fs = delivered-append es fs
delivered-append (log t ∷ es) fs = delivered-append es fs

take-append-drop : (n : ℕ) (xs : Str) → take n xs ++ drop n xs ≡ xs
take-append-drop zero xs = refl
take-append-drop (suc n) [] = refl
take-append-drop (suc n) (x ∷ xs) = ap (◌∷◌ x) (take-append-drop n xs)

-- What a write has done: it has sent `done`, the first part of the text, and is left with `rest`.
pub record Wrote (text : Str) (s : Session) (r : Session × Bool) : Type 0 where
  pub done : Str
  pub rest : Str
  pub parts : text ≡ done ++ rest
  pub on_socket : delivered (r.0).trace ≡ delivered s.trace ++ done
  pub whole : r.1 ≡ true → rest ≡ []
  pub failed : r.1 ≡ false → (r.0).quit ≡ true

Wrote-sent :
    (n : ℕ) (text : Str) (s : Session) (r : Session × Bool)
    → Wrote (drop n text) (emit (deliver (take n text) ∷ []) s) r
    → Wrote text s r
Wrote-sent n text s r w = record {
  done = take n text ++ w.done;
  rest = w.rest;
  parts =
      sym (take-append-drop n text)
      ∙ ap (◌++◌ (take n text)) w.parts
      ∙ sym (append_assoc (take n text) w.done w.rest);
  on_socket =
      w.on_socket
      ∙ ap (λ d. d ++ w.done) (delivered-append s.trace (deliver (take n text) ∷ []))
      ∙ append_assoc (delivered s.trace) (take n text ++ []) w.done
      ∙ ap (λ t. delivered s.trace ++ (t ++ w.done)) (append-nil (take n text));
  whole = w.whole;
  failed = w.failed;
}

-- Nothing has been sent.
Wrote-none :
    (text : Str) (s : Session) (r : Session × Bool)
    → (r.0).trace ≡ s.trace
    → (r.1 ≡ true → text ≡ [])
    → (r.1 ≡ false → (r.0).quit ≡ true)
    → Wrote text s r
Wrote-none text s r e w f = record {
  done = [];
  rest = text;
  parts = refl;
  on_socket = ap delivered e ∙ sym (append-nil (delivered s.trace));
  whole = w;
  failed = f;
}

nonempty : (c : ℕ) (cs : Str) → (length (c ∷ cs) == 0) ≡ false
nonempty c cs = ground arith

write_loop-Wrote : (rs : List Sent) (text : Str) (s : Session) → Wrote text s (write_loop rs text s)
unfolding write_loop
write_loop-Wrote [] text s = record {
  done = text;
  rest = [];
  parts = sym (append-nil text);
  on_socket =
      delivered-append s.trace (deliver text ∷ [])
      ∙ ap (◌++◌ (delivered s.trace)) (append-nil text);
  whole = λ e. refl;
  failed = λ e. cc;
}
write_loop-Wrote (r ∷ rs) [] s =
    Wrote-none [] s (record s { sends = r ∷ rs }, true) refl (λ e. refl) (λ e. cc)
write_loop-Wrote (interrupted ∷ rs) (c ∷ cs) s =
    rw (nonempty c cs, write_loop) (write_loop-Wrote rs (c ∷ cs) s)
write_loop-Wrote (broken ∷ rs) (c ∷ cs) s =
    rw (nonempty c cs, write_loop)
      (Wrote-none (c ∷ cs) s (record s { quit = true; sends = rs }, false) refl (λ e. cc)
        (λ e. refl))
write_loop-Wrote (sent n ∷ rs) (c ∷ cs) s =
    rw (nonempty c cs, write_loop)
      (Wrote-sent n (c ∷ cs) s
        (write_loop rs (drop n (c ∷ cs)) (emit (deliver (take n (c ∷ cs)) ∷ []) s))
        (write_loop-Wrote rs (drop n (c ∷ cs)) (emit (deliver (take n (c ∷ cs)) ∷ []) s)))

-- However the kernel splits or interrupts the writes, the client gets a first part of the text, in
-- order and once: the whole of it if `session_write` returns 0, and if it returns -1 the session
-- is marked to quit.
pub session_write-Wrote : (text : Str) (s : Session) → Wrote text s (session_write text s)
unfolding session_write
session_write-Wrote text s = write_loop-Wrote s.sends text s
