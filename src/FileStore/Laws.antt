-- ===== src/FileStore/Laws.antt =====
-- What the file store relies on in Node's fs: which file each call changes. `content` gives a file's
-- bytes, and `names` the file that an open descriptor writes.
use rome_solidity.Prelude.{
  ℕ, ◌≤◌, String, ◌≡◌, ◌≢◌, Option, some, List, [], ◌++◌, ok, err, length, take,
}
use rome_solidity.FileStore.{FileIo}

pub record IsFileIo {S : Type 0} (io : FileIo S) (content : S → String → Option (List ℕ))
    (names : S → ℕ → Option String) : Type 0 where
  pub mkdir_kept : (d p : String) (s : S) → content (io.mkdir_sync d s).1 p ≡ content s p
  -- A new file is empty.
  pub open_new_kept :
      (path p : String) (mode : ℕ) (s : S)
      → p ≢ path
      → content (io.open_new path mode s).1 p ≡ content s p
  pub open_new_ok :
      (path : String) (mode : ℕ) (s : S) (fd : ℕ)
      → (io.open_new path mode s).0 ≡ ok fd
      → (content (io.open_new path mode s).1 path ≡ some [])
        × (names (io.open_new path mode s).1 fd ≡ some path)
  -- A write appends the bytes that it counts.
  pub write_kept :
      (fd : ℕ) (bytes : List ℕ) (path p : String) (s : S)
      → names s fd ≡ some path
      → p ≢ path
      → content (io.write_sync fd bytes s).1 p ≡ content s p
  pub write_ok :
      (fd n : ℕ) (bytes old : List ℕ) (path : String) (s : S)
      → names s fd ≡ some path
      → content s path ≡ some old
      → (io.write_sync fd bytes s).0 ≡ ok n
      → (n ≤ length bytes)
        × (content (io.write_sync fd bytes s).1 path ≡ some (old ++ take n bytes))
        × (names (io.write_sync fd bytes s).1 fd ≡ some path)
  pub fsync_kept : (fd : ℕ) (p : String) (s : S) → content (io.fsync_sync fd s).1 p ≡ content s p
  pub close_kept : (fd : ℕ) (p : String) (s : S) → content (io.close_sync fd s).1 p ≡ content s p
  pub open_dir_kept : (d p : String) (s : S) → content (io.open_dir d s).1 p ≡ content s p
  -- A rename puts the one file in the place of the other, or leaves that one as it is.
  pub rename_ok :
      (from to : String) (s : S)
      → (io.rename_sync from to s).0 ≡ ok tt
      → content (io.rename_sync from to s).1 to ≡ content s from
  pub rename_failed :
      (from to e : String) (s : S)
      → (io.rename_sync from to s).0 ≡ err e
      → content (io.rename_sync from to s).1 to ≡ content s to
  pub unlink_kept :
      (path p : String) (s : S) → p ≢ path → content (io.unlink_sync path s).1 p ≡ content s p
