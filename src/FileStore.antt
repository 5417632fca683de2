-- ===== src/FileStore.antt =====
-- scripts/bridge/deploy-rubicon-v13.ts: `fileStore`, the deployments file of the Rubicon deploy and its
-- atomic write. Node's `fs` is a record of functions on a state of the world: each call may fail, and
-- gives the state after it in either case.
pub mod Entry
pub mod Laws
pub mod Loop
pub mod Atomic
pub mod Added
mod Examples
use mathlib.Core.Logic.{◌≢◌}
use rome_solidity.Prelude.{
  ℕ, zero, suc, ◌+◌, ◌%◌, String, Bool, true, false, not, Option, none, some, List, ◌==◌, leb,
  nat_eq, string_eq, if◌then◌else◌, Result, ok, err, length, drop,
}

-- `path.dirname`, the name of the temp file for a target, `Buffer.from(text, "utf8")`, and the calls of fs
pub record FileIo (S : Type 0) : Type 0 where
  pub dirname : String → String
  pub temp_name : String → String
  pub utf8 : String → List ℕ
  pub exists_sync : S → String → Bool
  pub read_file_sync : S → String → Result String String
  pub realpath_sync : S → String → Result String String
  pub stat_mode : S → String → Result String ℕ
  pub mkdir_sync : String → S → Result String (Unit {0}) × S
  -- `openSync(path, "wx", mode)` and `openSync(path, "r")`
  pub open_new : String → ℕ → S → Result String ℕ × S
  pub open_dir : String → S → Result String ℕ × S
  -- `writeSync` of the bytes that are left: how many were written
  pub write_sync : ℕ → List ℕ → S → Result String ℕ × S
  pub fsync_sync : ℕ → S → Result String (Unit {0}) × S
  pub close_sync : ℕ → S → Result String (Unit {0}) × S
  pub rename_sync : String → String → S → Result String (Unit {0}) × S
  pub unlink_sync : String → S → Result String (Unit {0}) × S

pub data StoreError : Type 0 where
  io_failed : String → StoreError
  no_progress : ℕ → ℕ → StoreError
  record_conflict : StoreError
  not_canonical : StoreError
  out_of_fuel : StoreError

-- What `writeAtomic` keeps: the world, and its variables `fd` and `created`
pub record Writing (S : Type 0) : Type 0 where
  pub world : S
  pub fd : Option ℕ
  pub created : Bool

-- `a === b` of texts that may be missing
abbrev pub same_text : Option String → Option String → Bool
same_text none none = true
same_text (some a) (some b) = a == b
same_text _ _ = false

-- A step that may throw
abbrev pub M : Type 0 → Type 0 → Type 0
M S A = Writing S → Result StoreError A × Writing S

infixl 5 ◌>>=◌ ◌>>◌
abbrev pub ◌>>=◌ : {S A B : Type 0} → M S A → (A → M S B) → M S B
◌>>=◌ m f w = let (r, v) = m w in elim r [ err e ↦ (err e, v) | ok a ↦ f a v ]

abbrev pub ◌>>◌ : {S B : Type 0} → M S (Unit {0}) → M S B → M S B
m >> k = m >>= λ _. k

unfoldable pub throw : {S A : Type 0} → StoreError → M S A
throw e w = (err e, w)

abbrev pub lifted : {A : Type 0} → Result String A → Result StoreError A
lifted (err e) = err (io_failed e)
lifted (ok a) = ok a

unfoldable pub call : {S A : Type 0} → (S → Result String A × S) → M S A
call f w = let (r, s) = f w.world in (lifted r, record w { world = s })

-- A test of the world, which it leaves as it is
unfoldable pub check : {S : Type 0} → (S → Result StoreError (Unit {0})) → M S (Unit {0})
check f w = (f w.world, w)

unfoldable pub assign : {S : Type 0} → Option ℕ → Bool → M S (Unit {0})
assign fd created w = (ok tt, record w { fd = fd; created = created })

module _ {S : Type 0} (io : FileIo S) where
  -- The loop of `writeAll` from an offset on
  unfoldable pub write_loop : ℕ → ℕ → ℕ → List ℕ → M S (Unit {0})
  unfolding throw call
  write_loop zero fd off bytes w =
      if leb (length bytes) off then (ok tt, w) else (err out_of_fuel, w)
  write_loop (suc fuel) fd off bytes w =
      let next : ℕ → M S (Unit {0}) = λ n. write_loop fuel fd (off + n) bytes in
      let step : ℕ → M S (Unit {0}) =
        λ n. if n == 0 then throw (no_progress off (length bytes)) else next n in
      if leb (length bytes) off
      then (ok tt, w)
      else (call (io.write_sync fd (drop off bytes)) >>= step) w

  -- A pass writes a byte or more, so there are no more passes than bytes.
  unfoldable pub write_all : ℕ → List ℕ → M S (Unit {0})
  unfolding write_loop
  write_all fd bytes = write_loop (length bytes) fd 0 bytes

  unfoldable pub real_target : String → S → Result String String
  real_target file s = if io.exists_sync s file then io.realpath_sync s file else ok file

  unfoldable pub read_raw : String → S → Result String (Option String)
  read_raw file s =
      let read : Result String (Option String) = elim (io.read_file_sync s file) [
        | ok t ↦ ok (some t)
        | err e ↦ err e
      ] in
      if io.exists_sync s file then read else ok none

  -- `statSync(target).mode & 0o777`, or 0o644 for a file that is not there
  unfoldable pub target_mode : String → S → Result String ℕ
  target_mode target s =
      let mode : Result String ℕ = elim (io.stat_mode s target) [
        | ok m ↦ ok (m % 512)
        | err e ↦ err e
      ] in
      if io.exists_sync s target then mode else ok 420

  -- The end of the `try` of `writeAtomic`: the temp file is complete and closed.
  unfoldable pub swap_in : (S → Result StoreError (Unit {0})) → String → String → M S (Unit {0})
  unfolding call check assign
  swap_in before_rename tmp target = do
    assign none true
    check before_rename
    call (io.rename_sync tmp target)

  -- The temp file is open.
  unfoldable pub fill :
      (S → Result StoreError (Unit {0})) → String → String → List ℕ → ℕ → M S (Unit {0})
  unfolding call write_all swap_in
  fill before_rename tmp target bytes fd = do
    write_all fd bytes
    call (io.fsync_sync fd)
    call (io.close_sync fd)
    swap_in before_rename tmp target

  -- The body of the `try`
  unfoldable pub replace :
      (S → Result StoreError (Unit {0}))
      → (S → Result StoreError (Unit {0}))
      → String
      → String
      → ℕ
      → List ℕ
      → M S (Unit {0})
  unfolding call check assign fill
  replace before_temp before_rename tmp target mode bytes = do
    check before_temp
    fd ← call (io.open_new tmp mode)
    assign (some fd) true
    fill before_rename tmp target bytes fd

  -- Its `catch`: errors of the two calls are dropped.
  unfoldable pub clean_up : String → Writing S → S
  clean_up tmp w =
      let closed : S = elim w.fd [ none ↦ w.world | some fd ↦ (io.close_sync fd w.world).1 ] in
      if w.created then (io.unlink_sync tmp closed).1 else closed

  -- The flush of the directory, whose errors are dropped
  unfoldable pub flush_dir : String → S → S
  flush_dir dir s =
      let (r, opened) = io.open_dir dir s in
      elim r [ err e ↦ opened | ok fd ↦ (io.close_sync fd (io.fsync_sync fd opened).1).1 ]

  unfoldable pub end_write :
      String → String → Result StoreError (Unit {0}) × Writing S → Result StoreError (Unit {0}) × S
  unfolding clean_up flush_dir
  end_write tmp dir (err e, w) = (err e, clean_up tmp w)
  end_write tmp dir (ok a, w) = (ok tt, flush_dir dir w.world)

  -- `writeAtomic`: what is thrown before the `try` leaves no temp file.
  unfoldable pub write_atomic :
      (S → Result StoreError (Unit {0}))
      → (S → Result StoreError (Unit {0}))
      → String
      → String
      → S
      → Result StoreError (Unit {0}) × S
  unfolding real_target target_mode replace end_write
  write_atomic before_temp before_rename file text s = elim (real_target file s) [
    | err e ↦ (err (io_failed e), s)
    | ok target ↦
        let (made, s1) = io.mkdir_sync (io.dirname target) s in
        elim made [
          | err e ↦ (err (io_failed e), s1)
          | ok _ ↦ elim (target_mode target s1) [
            | err e ↦ (err (io_failed e), s1)
            | ok mode ↦
                let start : Writing S = record { world = s1; fd = none; created = false } in
                let tmp = io.temp_name target in
                end_write tmp (io.dirname target)
                  (replace before_temp before_rename tmp target mode (io.utf8 text) start)
          ]
        ]
  ]

  -- `assertUnchanged`
  unfoldable pub assert_unchanged : String → Option String → S → Result StoreError (Unit {0})
  unfolding read_raw
  assert_unchanged file snapshot s = elim (read_raw file s) [
    | err e ↦ err (io_failed e)
    | ok now ↦ if same_text now snapshot then ok tt else err record_conflict
  ]
