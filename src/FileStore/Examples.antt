-- ===== src/FileStore/Examples.antt =====
-- A file system in memory that writes two bytes at a time, and the theorems on it.
use rome_solidity.Prelude.{
  ℕ, String, ◌≡◌, ◌≢◌, refl, sym, ap, ◌∙◌, subst, true, Option, none, some, is_some, List, [], ◌∷◌,
  ◌++◌, Result, ok, err, eq_iff, string_eq, nat_eq, insert, lookup, remove, lookup-insert,
  lookup-remove, length, take, arith, or_else, ◌≤◌, suc, zero,
}
use rome_solidity.Prelude.Json.{end}
use rome_solidity.Deploy.Record.{V13Record}
use rome_solidity.FileStore.{
  FileIo, out_of_fuel, write_all, write_loop, call, throw, real_target, target_mode, write_atomic,
  replace, fill, swap_in, check, assign, end_write, flush_dir, assert_unchanged, read_raw,
}
use rome_solidity.FileStore.Entry.{JsonText, entry_text, with_entry, add_record}
use rome_solidity.FileStore.Laws.{IsFileIo}
use rome_solidity.FileStore.Added.{write_all-ends, IsAddedOrKept, add_record-IsAddedOrKept}

pub record Memory : Type 0 where
  pub files : List (String × List ℕ)
  pub open_file : String

abbrev content : Memory → String → Option (List ℕ)
content s p = lookup p s.files

abbrev names : Memory → ℕ → Option String
names s fd = some s.open_file

abbrev done : Memory → Result String (Unit {0}) × Memory
done s = (ok tt, s)

-- A rename of a file that has the bytes, or that is not there
abbrev renamed : Memory → String → String → Option (List ℕ) → Result String (Unit {0}) × Memory
renamed s from to none = (err "ENOENT", s)
renamed s from to (some bytes) = (ok tt, record s { files = insert to bytes (remove from s.files) })

abbrev memory : FileIo Memory
memory = record {
  dirname = λ p. "/";
  temp_name = λ p. "/tmp";
  utf8 = λ t. 1 ∷ 2 ∷ 3 ∷ [];
  exists_sync = λ s p. is_some (lookup p s.files);
  read_file_sync = λ s p. ok "{}\n";
  realpath_sync = λ s p. ok p;
  stat_mode = λ s p. ok 420;
  mkdir_sync = λ d s. done s;
  open_new = λ p mode s. (ok 3, record { files = insert p [] s.files; open_file = p });
  open_dir = λ d s. (ok 4, s);
  write_sync = λ fd bytes s.
      let now = or_else (lookup s.open_file s.files) [] ++ take 2 bytes in
      (ok (length (take 2 bytes)), record s { files = insert s.open_file now s.files });
  fsync_sync = λ fd s. done s;
  close_sync = λ fd s. done s;
  rename_sync = λ from to s. renamed s from to (lookup from s.files);
  unlink_sync = λ p s. (ok tt, record s { files = remove p s.files });
}

take-length-take :
    (n : ℕ) (xs : List ℕ)
    → (length (take n xs) ≤ length xs) × (take (length (take n xs)) xs ≡ take n xs)
take-length-take zero xs = (omega arith, refl)
take-length-take (suc n) [] = (omega arith, refl)
take-length-take (suc n) (x ∷ xs) =
    let (le, same) = take-length-take n xs in (omega arith, ap (λ r. x ∷ r) same)

-- The bytes of the open file after a write
abbrev grown : Memory → List ℕ → List ℕ
grown s bytes = or_else (lookup s.open_file s.files) [] ++ take 2 bytes

grown-eq :
    (s : Memory) (bytes old : List ℕ) (path : String) (n : ℕ)
    → some s.open_file ≡ some path
    → lookup path s.files ≡ some old
    → length (take 2 bytes) ≡ n
    → grown s bytes ≡ old ++ take n bytes
grown-eq s bytes old path n named before is =
    let o : path ≡ s.open_file = cc in
    let b : lookup s.open_file s.files ≡ some old =
      subst (λ q. lookup q s.files ≡ some old) o before in
    let (le, same) = take-length-take 2 bytes in
    rw b (ap (λ t. old ++ t) (sym same ∙ ap (λ k. take k bytes) is))

memory-write_ok :
    (fd n : ℕ) (bytes old : List ℕ) (path : String) (s : Memory)
    → names s fd ≡ some path
    → content s path ≡ some old
    → (memory.write_sync fd bytes s).0 ≡ ok n
    → (n ≤ length bytes)
      × (content (memory.write_sync fd bytes s).1 path ≡ some (old ++ take n bytes))
      × (names (memory.write_sync fd bytes s).1 fd ≡ some path)
memory-write_ok fd n bytes old path s named before is =
    let (le, same) = take-length-take 2 bytes in
    let counted : ◌≡◌ {A = Result String ℕ} (ok (length (take 2 bytes))) (ok n) = is in
    let m : length (take 2 bytes) ≡ n = cc in
    let now = grown-eq s bytes old path n named before m in
    (
      subst (λ k. k ≤ length bytes) m le,
      ground (
        arith,
        lookup-insert s.open_file path (grown s bytes) s.files,
        eq_iff s.open_file path,
        now,
      ),
      named,
    )

renamed_ok :
    (s : Memory) (from to : String) (o : Option (List ℕ))
    → (renamed s from to o).0 ≡ ok tt
    → content (renamed s from to o).1 to ≡ o
renamed_ok s from to none h = cc
renamed_ok s from to (some bytes) h =
    ground (arith, lookup-insert to to bytes (remove from s.files), eq_iff to to)

renamed_failed :
    (s : Memory) (from to e : String) (o : Option (List ℕ))
    → (renamed s from to o).0 ≡ err e
    → content (renamed s from to o).1 to ≡ content s to
renamed_failed s from to e none h = refl
renamed_failed s from to e (some bytes) h = cc

memory-IsFileIo : IsFileIo memory content names
memory-IsFileIo = record {
  mkdir_kept = λ d p s. refl;
  open_new_kept =
      λ path p mode s other. ground (arith, lookup-insert path p [] s.files, eq_iff path p);
  open_new_ok = λ path mode s fd is.
      (ground (arith, lookup-insert path path [] s.files, eq_iff path path), refl);
  write_kept = λ fd bytes path p s named other.
      ground (arith, lookup-insert s.open_file p (grown s bytes) s.files, eq_iff s.open_file p);
  write_ok = memory-write_ok;
  fsync_kept = λ fd p s. refl;
  close_kept = λ fd p s. refl;
  open_dir_kept = λ d p s. refl;
  rename_ok = λ from to s is. renamed_ok s from to (lookup from s.files) is;
  rename_failed = λ from to e s is. renamed_failed s from to e (lookup from s.files) is;
  unlink_kept = λ path p s other. ground (arith, lookup-remove path p s.files, eq_iff path p);
}

abbrev json : JsonText
json = record { parse = λ t. ok end; stringify = λ f. "{}" }

abbrev record_v13 : V13Record
record_v13 = record {
  address = "0xC";
  version = "13.0.0";
  owner = "0x1";
  guardian = "0x2";
  deploy_tx = "0x3";
  deployed_at = 1;
  commit = "c";
  build_info_id = "b";
  solc_version = "0.8.28";
  code_hash = "0x4";
  deploy_input_hash = "0x5";
}

abbrev empty_file : Memory
empty_file = record { files = ("/d.json", 9 ∷ []) ∷ []; open_file = "" }

target_found : real_target memory "/d.json" empty_file ≡ ok "/d.json"
unfolding real_target
target_found = refl

other_name : ◌≢◌ {A = String} "/d.json" "/tmp"
other_name h = cc

-- Three bytes take two passes.
adds :
    content (add_record json memory "/d.json" (some "{}\n") record_v13 empty_file).1 "/d.json"
    ≡ some (1 ∷ 2 ∷ 3 ∷ [])
unfolding add_record with_entry entry_text write_atomic real_target target_mode replace fill swap_in
    call check assign write_all write_loop throw end_write flush_dir assert_unchanged read_raw
adds = refl

write_all-ends_example :
    (write_all memory 3
      (7 ∷ 8 ∷ 9 ∷ [])
      (record { world = empty_file; fd = some 3; created = true })).0
    ≢ err out_of_fuel
write_all-ends_example =
    write_all-ends memory 3 (7 ∷ 8 ∷ 9 ∷ [])
      (record { world = empty_file; fd = some 3; created = true })

add_record-IsAddedOrKept_example :
    IsAddedOrKept memory content names memory-IsFileIo json "/d.json" "/d.json"
      (some "{}\n")
      record_v13
      empty_file
      (add_record json memory "/d.json" (some "{}\n") record_v13 empty_file)
add_record-IsAddedOrKept_example =
    add_record-IsAddedOrKept memory content names memory-IsFileIo json "/d.json" "/d.json"
      (some "{}\n") record_v13 empty_file target_found other_name
