-- ===== src/Pintos/File/Denying.antt =====
-- Files that deny writes: Project_3/filesys/file.c, over all that can be done with the files of an
-- inode.
use system_prog.Base.{
  ℕ, zero, suc, ◌+◌, ◌-◌, ◌<◌, ◌≡◌, refl, ap, sym, subst, ◌∙◌, Bool, true, false, Option, none,
  some, List, [], ◌∷◌, ◌++◌, Str, arith, length, length-append, append-nil, ◌==◌, Bool-cases,
  Option-cases, inl, inr,
}
use system_prog.Pintos.Bitmap.Files.{FileOps}
use system_prog.Pintos.FreeMap.{FreeMap}
use system_prog.Pintos.Inode.{Disk}
use system_prog.Pintos.File.{
  Inode, File, inode_reopen, inode_remove, inode_close, release_blocks, file_open, file_reopen,
  file_deny_write, file_allow_write, file_close, file_read, file_write, file_write_at, file_seek,
}
use system_prog.Pintos.File.Sharing.{
  IsShared, deniers, deniers-append, write_at-denied, moved-IsShared, file_deny_write-Flags,
  file_allow_write-Flags, without,
}

-- The file that a call of file_open has returned, if any.
abbrev file_of : Option File → List File
file_of none = []
file_of (some f) = f ∷ []

moved_place :
    (others : ℕ) (i : Inode) (fs gs : List File) (f f' : File)
    → f'.deny_write ≡ f.deny_write
    → IsShared others i (fs ++ f ∷ gs)
    → IsShared others i (fs ++ f' ∷ gs)
moved_place others i fs gs f f' e v = moved-IsShared others i i fs gs f f' v refl (rw e refl)

module _ {F : Type 0} (ops : FileOps F) where
  -- An inode that `others` have open without denying writes, and the files that are opened on it and
  -- used. inode_open counts an inode that is open already as inode_reopen does, so that file_open
  -- behind it is file_reopen.
  pub data Shares (others : ℕ) : Inode → List File → Type 0 where
    start : (i : Inode) → i.open_cnt ≡ others → i.deny_write_cnt ≡ 0 → Shares others i []
    opened :
        {i : Inode} {fs : List File} (memory : Bool) (m m' : FreeMap F) (f : File) (i' : Inode)
        → Shares others i fs
        → file_reopen ops memory i m ≡ some (some f, some i', m')
        → Shares others i' (fs ++ f ∷ [])
    no_memory :
        {i : Inode} {fs : List File} (memory : Bool) (m m' : FreeMap F) (i' : Inode)
        → Shares others i fs
        → file_reopen ops memory i m ≡ some (none, some i', m')
        → Shares others i' fs
    removed : {i : Inode} {fs : List File} → Shares others i fs → Shares others (inode_remove i) fs
    denied :
        {i : Inode} (fs gs : List File) (f f' : File) (i' : Inode)
        → Shares others i (fs ++ f ∷ gs)
        → file_deny_write f i ≡ some (f', i')
        → Shares others i' (fs ++ f' ∷ gs)
    allowed :
        {i : Inode} (fs gs : List File) (f f' : File) (i' : Inode)
        → Shares others i (fs ++ f ∷ gs)
        → file_allow_write f i ≡ some (f', i')
        → Shares others i' (fs ++ f' ∷ gs)
    closed :
        {i : Inode} (fs gs : List File) (f : File) (m m' : FreeMap F) (i' : Inode)
        → Shares others i (fs ++ f ∷ gs)
        → file_close ops f i m ≡ some (some i', m')
        → Shares others i' (fs ++ gs)
    was_read :
        {i : Inode} (fs gs : List File) (f : File) (memory : Bool) (disk : Disk) (size : ℕ)
        → Shares others i (fs ++ f ∷ gs)
        → Shares others i (fs ++ (file_read memory f i disk size).1 ∷ gs)
    was_written :
        {i : Inode} (fs gs : List File) (f : File) (memory : Bool) (buffer : Str) (size : ℕ)
        (disk : Disk)
        → Shares others i (fs ++ f ∷ gs)
        → Shares others i (fs ++ (file_write memory f i buffer size disk).1 ∷ gs)
    sought :
        {i : Inode} (fs gs : List File) (f : File) (pos : ℕ)
        → Shares others i (fs ++ f ∷ gs)
        → Shares others i (fs ++ file_seek pos f ∷ gs)

  inode_close-kept :
      (i i' : Inode) (m m' : FreeMap F)
      → inode_close ops i m ≡ some (some i', m')
      → (0 < i.open_cnt) × (i' ≡ record i { open_cnt = i.open_cnt - 1 })
  unfolding inode_close
  inode_close-kept i i' m m' h = go i.open_cnt refl
    where
      go :
          (n : ℕ)
          → i.open_cnt ≡ n
          → (0 < i.open_cnt) × (i' ≡ record i { open_cnt = i.open_cnt - 1 })
      go zero e = absurd (ground (arith, e, h))
      go (suc n) e = elim (Bool-cases (n == 0)) [
        | inl q ↦ elim (Bool-cases i.removed) [
          | inr r ↦ absurd (ground (arith, e, q, r, h))
          | inl r ↦ elim (Option-cases (release_blocks ops i m)) [
            | inl b ↦ absurd (ground (arith, e, q, r, b, h))
            | inr (u, b) ↦ absurd (ground (arith, e, q, r, b, h))
          ]
        ]
        | inr q ↦ (omega (arith, e), ground (arith, e, q, h))
      ]

  -- The inode is open for one file less.
  closed-IsShared :
      (others : ℕ) (i i' : Inode) (fs : List File) (m m' : FreeMap F)
      → inode_close ops i m ≡ some (some i', m')
      → i.open_cnt ≡ suc (length fs + others)
      → i.deny_write_cnt ≡ deniers fs
      → IsShared others i' fs
  closed-IsShared others i i' fs m m' h o d =
      let (p, e) = inode_close-kept i i' m m' h in
      let cnt = ap (λ k. k.open_cnt) e in
      let deny = ap (λ k. k.deny_write_cnt) e in
      record { opened = omega (arith, cnt, o); denied = deny ∙ d }

  close_lem :
      (f g : File) (i j : Inode) (m : FreeMap F)
      → file_allow_write f i ≡ some (g, j)
      → file_close ops f i m ≡ inode_close ops j m
  unfolding file_close
  close_lem f g i j m e = rw (e, file_close) refl

  reopened-IsShared :
      (others : ℕ) (i : Inode) (fs : List File) (memory : Bool) (m m' : FreeMap F) (o : Option File)
      (i' : Inode)
      → IsShared others i fs
      → file_reopen ops memory i m ≡ some (o, some i', m')
      → IsShared others i' (fs ++ file_of o)
  unfolding file_reopen file_open inode_reopen
  reopened-IsShared others i fs true m m' o i' v h =
      let new : File = record { pos = 0; deny_write = false } in
      let j : Inode = record i { open_cnt = i.open_cnt + 1 } in
      let same : (some new ≡ o) × (j ≡ i') = ground (arith, h) in
      let shared : IsShared others j (fs ++ new ∷ []) = record {
        opened = omega (arith, v.opened, length-append fs (new ∷ []));
        denied = omega (arith, v.denied, deniers-append fs (new ∷ []));
      } in
      subst (λ k. IsShared others i' (fs ++ file_of k)) same.0
        (subst (λ k. IsShared others k (fs ++ new ∷ [])) same.1 shared)
  reopened-IsShared others i fs false m m' o i' v h =
      let j : Inode = record i { open_cnt = i.open_cnt + 1 } in
      elim (Option-cases (inode_close ops j m)) [
        | inl e ↦ absurd (ground (arith, e, h))
        | inr ((k, u), e) ↦
            let same : (none ≡ o) × (k ≡ some i') = ground (arith, e, h) in
            let kept =
              closed-IsShared others j i' fs m u (e ∙ ap (λ z. some (z, u)) same.1)
                (omega (arith, v.opened)) v.denied in
            subst (λ z. IsShared others i' (fs ++ file_of z)) same.0
              (subst (IsShared others i') (sym (append-nil fs)) kept)
      ]

  Shares-IsShared :
      (others : ℕ) (i : Inode) (fs : List File) → Shares others i fs → IsShared others i fs
  unfolding inode_remove file_read file_write file_seek
  Shares-IsShared others _ _ (start i o d) = record { opened = omega (arith, o); denied = d }
  Shares-IsShared others _ _ (opened {i} {fs} memory m m' f i' s h) =
      reopened-IsShared others i fs memory m m' (some f) i' (Shares-IsShared others i fs s) h
  Shares-IsShared others _ _ (no_memory {i} {fs} memory m m' i' s h) =
      subst (IsShared others i') (append-nil fs)
        (reopened-IsShared others i fs memory m m' none i' (Shares-IsShared others i fs s) h)
  Shares-IsShared others _ _ (removed {i} {fs} s) =
      let v = Shares-IsShared others i fs s in record { opened = v.opened; denied = v.denied }
  Shares-IsShared others _ _ (denied {i} fs gs f f' i' s h) =
      let (g, j, e, _, _, _, w) =
        file_deny_write-Flags others i fs gs f (Shares-IsShared others i (fs ++ f ∷ gs) s) in
      let same : (g ≡ f') × (j ≡ i') = ground (arith, e, h) in
      subst (λ k. IsShared others i' (fs ++ k ∷ gs)) same.0
        (subst (λ k. IsShared others k (fs ++ g ∷ gs)) same.1 w)
  Shares-IsShared others _ _ (allowed {i} fs gs f f' i' s h) =
      let (g, j, e, _, _, _, w) =
        file_allow_write-Flags others i fs gs f (Shares-IsShared others i (fs ++ f ∷ gs) s) in
      let same : (g ≡ f') × (j ≡ i') = ground (arith, e, h) in
      subst (λ k. IsShared others i' (fs ++ k ∷ gs)) same.0
        (subst (λ k. IsShared others k (fs ++ g ∷ gs)) same.1 w)
  Shares-IsShared others _ _ (closed {i} fs gs f m m' i' s h) =
      let (g, j, e, off, _, _, w) =
        file_allow_write-Flags others i fs gs f (Shares-IsShared others i (fs ++ f ∷ gs) s) in
      closed-IsShared others j i' (fs ++ gs) m m' (sym (close_lem f g i j m e) ∙ h)
        (omega (arith, w.opened, length-append fs (g ∷ gs), length-append fs gs))
        (w.denied ∙ without fs gs g off)
  Shares-IsShared others _ _ (was_read {i} fs gs f memory disk size s) =
      moved_place others i fs gs f (file_read memory f i disk size).1 refl
        (Shares-IsShared others i (fs ++ f ∷ gs) s)
  Shares-IsShared others _ _ (was_written {i} fs gs f memory buffer size disk s) =
      moved_place others i fs gs f (file_write memory f i buffer size disk).1 refl
        (Shares-IsShared others i (fs ++ f ∷ gs) s)
  Shares-IsShared others _ _ (sought {i} fs gs f pos s) =
      moved_place others i fs gs f (file_seek pos f) refl
        (Shares-IsShared others i (fs ++ f ∷ gs) s)

  -- Whatever has been done with the files of an inode, opening, closing, reading, writing and seeking
  -- them, denying and allowing writes and removing the inode, its count of deniers is the number of
  -- its files that deny writes; and while one of them does, a write through any file of the inode,
  -- that one too, by file_write or file_write_at, writes nothing, and file_write moves no position.
  pub file_write_denied :
      (others : ℕ) (i : Inode) (fs gs : List File) (f g : File) (memory : Bool) (buffer : Str)
      (size file_ofs : ℕ) (disk : Disk)
      → Shares others i (fs ++ f ∷ gs)
      → f.deny_write ≡ true
      → (i.deny_write_cnt ≡ deniers (fs ++ f ∷ gs))
        × (file_write memory g i buffer size disk ≡ (0, g, disk))
        × (file_write_at memory i buffer size file_ofs disk ≡ (0, disk))
  unfolding file_write file_write_at
  file_write_denied others i fs gs f g memory buffer size file_ofs disk s h =
      let d = (Shares-IsShared others i (fs ++ f ∷ gs) s).denied in
      let some_deny : 0 < i.deny_write_cnt = ground (arith, d, h, deniers-append fs (f ∷ gs)) in
      let none_written = write_at-denied i memory buffer size g.pos disk some_deny in
      (
        d,
        rw none_written (ap (λ p. (0, record g { pos = p }, disk)) (omega arith)),
        write_at-denied i memory buffer size file_ofs disk some_deny,
      )
