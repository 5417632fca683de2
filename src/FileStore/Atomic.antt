-- ===== src/FileStore/Atomic.antt =====
-- What a write of the deployments file leaves there, whichever calls fail.
use rome_solidity.Prelude.{
  ℕ, String, ◌≡◌, ◌≢◌, refl, sym, ◌∙◌, subst, inl, inr, true, false, Bool-cases, Option, none, some,
  List, [], length, Result, ok, err, Result-cases, arith,
}
use rome_solidity.FileStore.{
  FileIo, Writing, M, ◌>>=◌, ◌>>◌, StoreError, call, lifted, check, assign, write_all, swap_in,
  fill, replace, clean_up, flush_dir, end_write, write_atomic, real_target, target_mode,
}
use rome_solidity.FileStore.Laws.{IsFileIo}
use rome_solidity.FileStore.Loop.{write_loop-writes}

module _ {S : Type 0} (io : FileIo S) (content : S → String → Option (List ℕ))
    (names : S → ℕ → Option String) (laws : IsFileIo io content names)
    (before_rename : S → Result StoreError (Unit {0})) where
  -- A write that is done leaves the bytes in the file, and its last test passed while the file was still
  -- the old one; a write that throws leaves the file alone.
  abbrev pub IsAllOrNothing : String → List ℕ → S → Result StoreError (Unit {0}) → S → Type 0
  IsAllOrNothing target bytes s (ok a) s' =
      (content s' target ≡ some bytes)
      × ((v : S) × (before_rename v ≡ ok tt) × (content v target ≡ content s target))
  IsAllOrNothing target bytes s (err e) s' = content s' target ≡ content s target

  abbrev AllOrNothing : String → List ℕ → S → Result StoreError (Unit {0}) × Writing S → Type 0
  AllOrNothing target bytes s r = IsAllOrNothing target bytes s r.0 r.1.world

  flush_dir_kept : (dir p : String) (s : S) → content (flush_dir io dir s) p ≡ content s p
  unfolding flush_dir
  flush_dir_kept dir p s = elim (Result-cases (io.open_dir dir s).0) [
    | inl (fd, opened) ↦
        rw (flush_dir, opened)
          (laws.close_kept fd p _ ∙ laws.fsync_kept fd p _ ∙ laws.open_dir_kept dir p s)
    | inr (e, failed) ↦ rw (flush_dir, failed) (laws.open_dir_kept dir p s)
  ]

  closed_kept :
      (fd : Option ℕ) (p : String) (s : S)
      → content (elim fd as (λ x. S) [ none ↦ s | some fd ↦ (io.close_sync fd s).1 ]) p
        ≡ content s p
  closed_kept none p s = refl
  closed_kept (some fd) p s = laws.close_kept fd p s

  clean_up_kept :
      (tmp p : String) (w : Writing S) → p ≢ tmp → content (clean_up io tmp w) p ≡ content w.world p
  unfolding clean_up
  clean_up_kept tmp p w other = elim (Bool-cases w.created) [
    | inl made ↦ rw (clean_up, made) (laws.unlink_kept tmp p _ other ∙ closed_kept w.fd p w.world)
    | inr unmade ↦ rw (clean_up, unmade) (closed_kept w.fd p w.world)
  ]

  end_write-AllOrNothing :
      (tmp dir target : String) (bytes : List ℕ) (s : S)
      (r : Result StoreError (Unit {0}) × Writing S)
      → target ≢ tmp
      → AllOrNothing target bytes s r
      → IsAllOrNothing target bytes s (end_write io tmp dir r).0 (end_write io tmp dir r).1
  unfolding end_write
  end_write-AllOrNothing tmp dir target bytes s (ok a, w) other (new, tested) =
      (flush_dir_kept dir target w.world ∙ new, tested)
  end_write-AllOrNothing tmp dir target bytes s (err e, w) other h =
      clean_up_kept tmp target w other ∙ h

  module _ {A : Type 0} (m : M S A) (next : A → M S (Unit {0})) (w : Writing S) where
    >>=-ok : (a : A) → (m w).0 ≡ ok a → (m >>= next) w ≡ next a (m w).1
    >>=-ok a is = rw (◌>>=◌, is) refl

    >>=-err : (e : StoreError) → (m w).0 ≡ err e → (m >>= next) w ≡ (err e, (m w).1)
    >>=-err e is = rw (◌>>=◌, is) refl

    -- A step that throws ends the run there.
    step :
        (target : String) (bytes : List ℕ) (s : S)
        → content (m w).1.world target ≡ content s target
        → ((a : A) → (m w).0 ≡ ok a → AllOrNothing target bytes s (next a (m w).1))
        → AllOrNothing target bytes s ((m >>= next) w)
    step target bytes s kept continued = elim (Result-cases (m w).0) [
      | inl (a, is) ↦ subst (AllOrNothing target bytes s) (sym (>>=-ok a is)) (continued a is)
      | inr (e, is) ↦ subst (AllOrNothing target bytes s) (sym (>>=-err e is)) kept
    ]

  lifted-eq-ok : {A : Type 0} (r : Result String A) (a : A) → lifted r ≡ ok a → r ≡ ok a
  lifted-eq-ok (ok b) a h = ground arith
  lifted-eq-ok (err e) a h = cc

  abbrev StateTest : Type 0
  StateTest = S → Result StoreError (Unit {0})

  -- The rename decides: the temp file has all the bytes.
  swap_in-AllOrNothing :
      (tmp target : String) (bytes : List ℕ) (s : S) (w : Writing S)
      → content w.world target ≡ content s target
      → content w.world tmp ≡ some bytes
      → AllOrNothing target bytes s (swap_in io before_rename tmp target w)
  unfolding swap_in check assign call
  swap_in-AllOrNothing tmp target bytes s w kept full =
      let rename : M S (Unit {0}) = call (io.rename_sync tmp target) in
      let v : Writing S = record w { fd = none; created = true } in
      step (check before_rename) (λ _. rename) v target bytes s kept
        (λ _ passed. elim (Result-cases (io.rename_sync tmp target w.world).0) [
          | inl (a, done) ↦
              rw done (laws.rename_ok tmp target w.world done ∙ full, (w.world, passed, kept))
          | inr (e, failed) ↦ rw failed (laws.rename_failed tmp target e w.world failed ∙ kept)
        ])

  fill-AllOrNothing :
      (tmp target : String) (bytes : List ℕ) (fd : ℕ) (s : S) (w : Writing S)
      → target ≢ tmp
      → content w.world target ≡ content s target
      → content w.world tmp ≡ some []
      → names w.world fd ≡ some tmp
      → AllOrNothing target bytes s (fill io before_rename tmp target bytes fd w)
  unfolding fill write_all call
  fill-AllOrNothing tmp target bytes fd s w other kept empty named =
      let last = swap_in io before_rename tmp target in
      let closing : M S (Unit {0}) = call (io.close_sync fd) in
      let syncing : M S (Unit {0}) = call (io.fsync_sync fd) in
      let (full, same) =
        write_loop-writes io content names laws (length bytes) fd 0 bytes tmp target w named empty
          other in
      let w1 = (write_all io fd bytes w).1 in
      let w2 = (syncing w1).1 in
      let w3 = (closing w2).1 in
      let k1 = same ∙ kept in
      let k2 = laws.fsync_kept fd target w1.world ∙ k1 in
      let k3 = laws.close_kept fd target w2.world ∙ k2 in
      step (write_all io fd bytes) (λ _. syncing >> (closing >> last)) w target bytes s k1
        (λ _ wrote.
          step syncing (λ _. closing >> last) w1 target bytes s k2
            (λ _ _.
              step closing (λ _. last) w2 target bytes s k3
                (λ _ _. swap_in-AllOrNothing tmp target bytes s w3 k3 (
                  laws.close_kept fd tmp w2.world ∙ laws.fsync_kept fd tmp w1.world ∙ full wrote))))

  replace-AllOrNothing :
      (before_temp : StateTest) (tmp target : String) (mode : ℕ) (bytes : List ℕ) (s : S)
      (w : Writing S)
      → target ≢ tmp
      → content w.world target ≡ content s target
      → AllOrNothing target bytes s (replace io before_temp before_rename tmp target mode bytes w)
  unfolding replace call check assign
  replace-AllOrNothing before_temp tmp target mode bytes s w other before =
      let opening : M S ℕ = call (io.open_new tmp mode) in
      let rest : ℕ → M S (Unit {0}) =
        λ fd. assign (some fd) true >> fill io before_rename tmp target bytes fd in
      let kept = laws.open_new_kept tmp target mode w.world other ∙ before in
      step (check before_temp) (λ _. opening >>= rest) w target bytes s before
        (λ _ _. step opening rest w target bytes s kept (λ fd opened.
          let (empty, named) =
            laws.open_new_ok tmp mode w.world fd
              (lifted-eq-ok (io.open_new tmp mode w.world).0 fd opened) in
          let w1 : Writing S = record {
            world = (opening w).1.world;
            fd = some fd;
            created = true;
          } in
          fill-AllOrNothing tmp target bytes fd s w1 other kept empty named))

  -- Whichever call fails, the file is as it was, or it has all of the new text.
  pub write_atomic-IsAllOrNothing :
      (before_temp : StateTest) (file text target : String) (s : S)
      → real_target io file s ≡ ok target
      → target ≢ io.temp_name target
      → IsAllOrNothing target
          (io.utf8 text)
          s
          (write_atomic io before_temp before_rename file text s).0
          (write_atomic io before_temp before_rename file text s).1
  unfolding write_atomic
  write_atomic-IsAllOrNothing before_temp file text target s is other =
      let dir = io.dirname target in
      let tmp = io.temp_name target in
      let s1 = (io.mkdir_sync dir s).1 in
      let kept = laws.mkdir_kept dir target s in
      elim (Result-cases (io.mkdir_sync dir s).0) [
        | inr (e, failed) ↦ rw (write_atomic, is, failed) kept
        | inl (a, made) ↦ elim (Result-cases (target_mode io target s1)) [
          | inr (e, failed) ↦ rw (write_atomic, is, made, failed) kept
          | inl (mode, known) ↦
              let start : Writing S = record { world = s1; fd = none; created = false } in
              let run = replace io before_temp before_rename tmp target mode (io.utf8 text) start in
              rw (write_atomic, is, made, known)
                (end_write-AllOrNothing tmp dir target (io.utf8 text) s run other (
                  replace-AllOrNothing before_temp tmp target mode (io.utf8 text) s start other
                    kept))
        ]
      ]
