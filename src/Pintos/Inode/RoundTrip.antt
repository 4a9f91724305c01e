-- ===== src/Pintos/Inode/RoundTrip.antt =====
-- What has been written can be read: inode_read_at and inode_write_at of
-- Project_3/filesys/inode.c.
use system_prog.Base.{
  ℕ, suc, ◌≤◌, ◌<◌, ◌≡◌, refl, ap₂, sym, ◌∙◌, true, [], ◌∷◌, Str, arith, take, length, length-take,
  get_or,
}
use system_prog.Pintos.Inode.{Disk, InodeDisk, inode_read_at, inode_write_at}
use system_prog.Pintos.Inode.Reading.{IsDisk, get_or-take, inode_read_at-Reads}
use system_prog.Pintos.Inode.Writing.{inode_write_at-Writes}

extensional :
    (xs ys : Str)
    → length xs ≡ length ys
    → ((k : ℕ) → k < length xs → get_or xs k 0 ≡ get_or ys k 0)
    → xs ≡ ys
extensional [] [] e h = refl
extensional [] (y ∷ ys) e h = absurd (ground (arith, e))
extensional (x ∷ xs) [] e h = absurd (ground (arith, e))
extensional (x ∷ xs) (y ∷ ys) e h =
    ap₂ (λ z zs. z ∷ zs) (h 0 (omega arith))
      (extensional xs ys (omega arith) (λ k l. h (suc k) (omega (arith, l))))

-- A read at the place of a write gives the bytes that the write has written.
pub inode_read_at-inode_write_at :
    (inode : InodeDisk) (buffer : Str) (size offset : ℕ) (disk : Disk)
    → IsDisk disk
    → size ≤ length buffer
    → let (n, disk') = inode_write_at true 0 inode buffer size offset disk in
      inode_read_at true inode disk' size offset ≡ take n buffer
inode_read_at-inode_write_at inode buffer size offset disk good h =
    let w = inode_write_at-Writes inode buffer size offset disk good h in
    let n = (inode_write_at true 0 inode buffer size offset disk).0 in
    let disk' = (inode_write_at true 0 inode buffer size offset disk).1 in
    let r = inode_read_at-Reads inode disk' size offset w.written.sectors in
    let bytes = inode_read_at true inode disk' size offset in
    let same : length bytes ≡ n = r.count ∙ sym w.count in
    extensional bytes (take n buffer)
      (same ∙ sym (length-take n buffer ∙ omega (arith, w.count, h)))
      (λ k l.
        r.content k l
        ∙ w.written.inside k (omega (arith, same, l))
        ∙ sym (get_or-take n buffer k 0 (omega (arith, same, l))))
