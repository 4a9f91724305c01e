-- ===== src/Pintos/File/Stored.antt =====
-- The files of Project_3/filesys/file.c as the storage of a bitmap.
use system_prog.Base.{ℕ, ◌≤◌, ◌≡◌, ap, sym, ◌∙◌, true, Str, length, take}
use system_prog.Pintos.Bitmap.Files.{IsStorage}
use system_prog.Pintos.Inode.{Disk, inode_write_at, inode_read_at}
use system_prog.Pintos.Inode.Reading.{IsDisk}
use system_prog.Pintos.Inode.RoundTrip.{inode_read_at-inode_write_at}
use system_prog.Pintos.File.{Inode, file_read_at, file_write_at, file_ops}

-- A file whose inode nobody denies writes to, on a disk of whole sectors.
pub record IsWritable (f : Inode × Disk) : Type 0 where
  pub undenied : f.0.deny_write_cnt ≡ 0
  pub disk : IsDisk f.1

read_written :
    (i : Inode) (disk : Disk) (deny : ℕ) (text : Str) (size : ℕ)
    → deny ≡ 0
    → IsDisk disk
    → size ≤ length text
    → (inode_write_at true deny i.data_ text size 0 disk).0 ≡ size
    → inode_read_at true i.data_ (inode_write_at true deny i.data_ text size 0 disk).1 size 0
      ≡ take size text
read_written i disk deny text size z w h n =
    let written : ℕ → ℕ × Disk = λ k. inode_write_at true k i.data_ text size 0 disk in
    let read : ℕ → Str = λ k. inode_read_at true i.data_ (written k).1 size 0 in
    ap read z
    ∙ inode_read_at-inode_write_at i.data_ text size 0 disk w h
    ∙ ap (λ k. take k text) (sym (ap (λ k. (written k).0) z) ∙ n)

pub file_ops-IsStorage : IsStorage (file_ops true) IsWritable
unfolding file_read_at file_write_at
file_ops-IsStorage = record {
  read-write =
      λ f text size w h n. read_written f.0 f.1 f.0.deny_write_cnt text size w.undenied w.disk h n;
}
