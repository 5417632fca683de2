-- ===== src/FileStore/Added.antt =====
-- What `writeAll` and `addRecord` promise.
use rome_solidity.Prelude.{
  ℕ, String, ◌≡◌, ◌≢◌, refl, true, Option, none, some, eq_iff, List, inl, inr, Result, ok, err,
  Result-cases, arith, length,
}
use rome_solidity.Deploy.Record.{V13Record}
use rome_solidity.FileStore.{
  FileIo, Writing, StoreError, out_of_fuel, write_all, real_target, assert_unchanged, write_atomic,
  read_raw, same_text,
}
use rome_solidity.FileStore.Entry.{JsonText, with_entry, add_record}
use rome_solidity.FileStore.Laws.{IsFileIo}
use rome_solidity.FileStore.Loop.{write_loop-ends}
use rome_solidity.FileStore.Atomic.{IsAllOrNothing, write_atomic-IsAllOrNothing}

-- Writing all the bytes takes no more passes than there are bytes, whatever the calls answer.
pub write_all-ends :
    {S : Type 0} (io : FileIo S) (fd : ℕ) (bytes : List ℕ) (w : Writing S)
    → (write_all io fd bytes w).0 ≢ err out_of_fuel
unfolding write_all
write_all-ends io fd bytes w = write_loop-ends io (length bytes) fd 0 bytes w (omega arith)

same_text-eq-true : (a b : Option String) → same_text a b ≡ true → a ≡ b
same_text-eq-true none none h = refl
same_text-eq-true (some a) (some b) h = ground (arith, eq_iff a b)
same_text-eq-true none (some b) h = cc
same_text-eq-true (some a) none h = cc

-- The test passes only where the file reads as the snapshot.
assert_unchanged-eq-ok :
    {S : Type 0} (io : FileIo S) (file : String) (snapshot : Option String) (s : S)
    → assert_unchanged io file snapshot s ≡ ok tt
    → read_raw io file s ≡ ok snapshot
unfolding assert_unchanged
assert_unchanged-eq-ok io file snapshot s h = elim (Result-cases (read_raw io file s)) [
  | inr (e, failed) ↦ ground arith
  | inl (now, is) ↦ ground (arith, same_text-eq-true now snapshot)
]

module _ {S : Type 0} (io : FileIo S) (content : S → String → Option (List ℕ))
    (names : S → ℕ → Option String) (laws : IsFileIo io content names) (json : JsonText) where
  -- The record was added to the snapshot, which the file was read to be while it still was the old one, or
  -- the file is as it was.
  abbrev pub IsAddedOrKept :
      String → String → Option String → V13Record → S → Result StoreError (Unit {0}) × S → Type 0
  IsAddedOrKept file target snapshot record_ s (ok a, s') =
      (text : String) × (with_entry json snapshot record_ ≡ ok text)
      × (content s' target ≡ some (io.utf8 text))
      × ((v : S) × (read_raw io file v ≡ ok snapshot) × (content v target ≡ content s target))
  IsAddedOrKept file target snapshot record_ s (err e, s') = content s' target ≡ content s target

  -- Adding the record, where the file is found and the temp file has another name: if it is done, the file
  -- has the bytes of the snapshot with the entry and was read to be the snapshot before it was replaced, and
  -- if it throws, whichever call failed, the file is as
  -- it was.
  pub add_record-IsAddedOrKept :
      (file target : String) (snapshot : Option String) (record_ : V13Record) (s : S)
      → real_target io file s ≡ ok target
      → target ≢ io.temp_name target
      → IsAddedOrKept file target snapshot record_ s (add_record json io file snapshot record_ s)
  unfolding add_record
  add_record-IsAddedOrKept file target snapshot record_ s is other =
      elim (Result-cases (with_entry json snapshot record_)) [
        | inr (e, refused) ↦ rw (add_record, refused) refl
        | inl (text, made) ↦
            let same = assert_unchanged io file snapshot in
            rw (add_record, made)
              (added text made (write_atomic io same same file text s) (
                write_atomic-IsAllOrNothing io content names laws same same file text target s is
                  other))
      ]
    where
      added :
          (text : String)
          → with_entry json snapshot record_ ≡ ok text
          → (r : Result StoreError (Unit {0}) × S)
          → IsAllOrNothing io content names laws
              (assert_unchanged io file snapshot)
              target
              (io.utf8 text)
              s
              r.0
              r.1
          → IsAddedOrKept file target snapshot record_ s r
      added text made (ok a, s') (new, (v, tested, old)) =
          (text, made, new, (v, assert_unchanged-eq-ok io file snapshot v tested, old))
      added text made (err e, s') h = h
