-- ===== src/FileStore/Loop.antt =====
-- The loop that writes every byte: it ends, and its success leaves exactly the bytes.
use rome_solidity.Prelude.{
  ℕ, zero, suc, ◌+◌, ◌-◌, ◌≤◌, ◌<◌, String, ◌≡◌, ◌≢◌, refl, sym, ap, ◌∙◌, ◌⊎◌, inl, inr, Bool-cases,
  Option, some, List, [], ◌∷◌, ◌++◌, arith, leb, nat_eq, if◌then◌else◌, Result, ok, err,
  Result-cases, length, take, drop,
}
use rome_solidity.FileStore.{
  FileIo, Writing, io_failed, no_progress, out_of_fuel, call, throw, write_loop,
}
use rome_solidity.FileStore.Laws.{IsFileIo}

length-drop : (n : ℕ) (xs : List ℕ) → length (drop n xs) ≡ length xs - n
length-drop zero xs = omega arith
length-drop (suc n) [] = omega arith
length-drop (suc n) (x ∷ xs) = length-drop n xs ∙ omega arith

take-all : (n : ℕ) (xs : List ℕ) → length xs ≤ n → take n xs ≡ xs
take-all zero [] h = refl
take-all zero (x ∷ xs) h = absurd (omega arith)
take-all (suc n) [] h = refl
take-all (suc n) (x ∷ xs) h = ap (λ r. x ∷ r) (take-all n xs (omega arith))

take-nil : (n : ℕ) → take {A = ℕ} n [] ≡ []
take-nil zero = refl
take-nil (suc n) = refl

take-add : (m n : ℕ) (xs : List ℕ) → take m xs ++ take n (drop m xs) ≡ take (m + n) xs
take-add zero n xs = ap (λ k. take k xs) (omega arith)
take-add (suc m) n [] = take-nil n ∙ sym (take-nil (suc m + n))
take-add (suc m) n (x ∷ xs) =
    let sum : suc (m + n) ≡ suc m + n = omega arith in
    ap (λ r. x ∷ r) (take-add m n xs) ∙ ap (λ k. take k (x ∷ xs)) sum

module _ {S : Type 0} (io : FileIo S) where
  -- What one pass of the loop does
  module _ (fuel fd off : ℕ) (bytes : List ℕ) (w : Writing S) where
    abbrev written : Result String ℕ × S
    written = io.write_sync fd (drop off bytes) w.world

    abbrev moved : Writing S
    moved = record w { world = written.1 }

    write_loop_done : length bytes ≤ off → write_loop io (suc fuel) fd off bytes w ≡ (ok tt, w)
    unfolding write_loop
    write_loop_done h = ground arith

    write_loop_failed :
        (e : String)
        → off < length bytes
        → written.0 ≡ err e
        → write_loop io (suc fuel) fd off bytes w ≡ (err (io_failed e), moved)
    unfolding write_loop call
    write_loop_failed e h failed = ground arith

    write_loop_stuck :
        off < length bytes
        → written.0 ≡ ok 0
        → write_loop io (suc fuel) fd off bytes w ≡ (err (no_progress off (length bytes)), moved)
    unfolding write_loop call throw
    write_loop_stuck h stuck = ground arith

    write_loop_next :
        (n : ℕ)
        → off < length bytes
        → written.0 ≡ ok (suc n)
        → write_loop io (suc fuel) fd off bytes w ≡ write_loop io fuel fd (off + suc n) bytes moved
    unfolding write_loop call
    write_loop_next n h some_bytes = ground arith

    -- The loop is done, the call fails, it writes nothing, or it writes a byte or more.
    pass_cases :
        (length bytes ≤ off)
        ⊎ ((off < length bytes)
            × (((e : String) × (written.0 ≡ err e))
                ⊎ ((written.0 ≡ ok 0) ⊎ ((n : ℕ) × (written.0 ≡ ok (suc n))))))
    pass_cases = elim (Bool-cases (leb (length bytes) off)) [
      | inl done ↦ inl (ground arith)
      | inr more ↦ elim (Result-cases written.0) [
        | inr (e, failed) ↦ inr (ground arith, inl (e, failed))
        | inl (n, wrote) ↦ inr (ground arith, inr (count n wrote))
      ]
    ]
      where
        count :
            (n : ℕ) → written.0 ≡ ok n → (written.0 ≡ ok 0) ⊎ ((n : ℕ) × (written.0 ≡ ok (suc n)))
        count zero h = inl h
        count (suc n) h = inr (n, h)

  no_fuel :
      (fd off : ℕ) (bytes : List ℕ) (w : Writing S)
      → write_loop io zero fd off bytes w
        ≡ (if leb (length bytes) off then (ok tt, w) else (err out_of_fuel, w))
  unfolding write_loop
  no_fuel fd off bytes w = refl

  -- With fuel for the bytes that are left the loop ends by itself.
  pub write_loop-ends :
      (fuel fd off : ℕ) (bytes : List ℕ) (w : Writing S)
      → length bytes ≤ off + fuel
      → (write_loop io fuel fd off bytes w).0 ≢ err out_of_fuel
  write_loop-ends zero fd off bytes w h = rw (no_fuel fd off bytes w) (ground arith)
  write_loop-ends (suc fuel) fd off bytes w h = elim (pass_cases fuel fd off bytes w) [
    | inl done ↦ rw (write_loop_done fuel fd off bytes w done) (λ e. cc)
    | inr (more, inl (e, failed)) ↦
        rw (write_loop_failed fuel fd off bytes w e more failed) (λ e. cc)
    | inr (more, inr (inl stuck)) ↦ rw (write_loop_stuck fuel fd off bytes w more stuck) (λ e. cc)
    | inr (more, inr (inr (n, wrote))) ↦
        rw (write_loop_next fuel fd off bytes w n more wrote)
          (write_loop-ends fuel fd (off + suc n) bytes (moved fuel fd off bytes w) (omega arith))
  ]

module _ {S : Type 0} (io : FileIo S) (content : S → String → Option (List ℕ))
    (names : S → ℕ → Option String) (laws : IsFileIo io content names) where
  -- The temp file holds the bytes that were counted; the loop changes no other file.
  pub write_loop-writes :
      (fuel fd off : ℕ) (bytes : List ℕ) (tmp p : String) (w : Writing S)
      → names w.world fd ≡ some tmp
      → content w.world tmp ≡ some (take off bytes)
      → p ≢ tmp
      → ((write_loop io fuel fd off bytes w).0 ≡ ok tt
          → content (write_loop io fuel fd off bytes w).1.world tmp ≡ some bytes)
        × (content (write_loop io fuel fd off bytes w).1.world p ≡ content w.world p)
  write_loop-writes zero fd off bytes tmp p w named so_far other =
      elim (Bool-cases (leb (length bytes) off)) [
        | inl done ↦
            rw (no_fuel io fd off bytes w, done)
              (λ e. so_far ∙ ap some (take-all off bytes (ground arith)), refl)
        | inr more ↦ rw (no_fuel io fd off bytes w, more) (λ e. cc, refl)
      ]
  write_loop-writes (suc fuel) fd off bytes tmp p w named so_far other =
      let kept = laws.write_kept fd (drop off bytes) tmp p w.world named other in
      elim (pass_cases io fuel fd off bytes w) [
        | inl done ↦
            rw (write_loop_done io fuel fd off bytes w done)
              (λ e. so_far ∙ ap some (take-all off bytes done), refl)
        | inr (more, inl (e, failed)) ↦
            rw (write_loop_failed io fuel fd off bytes w e more failed) (λ e. cc, kept)
        | inr (more, inr (inl stuck)) ↦
            rw (write_loop_stuck io fuel fd off bytes w more stuck) (λ e. cc, kept)
        | inr (more, inr (inr (n, wrote))) ↦
            let (le, now, named_now) =
              laws.write_ok fd (suc n) (drop off bytes) (take off bytes) tmp w.world named so_far
                wrote in
            let (full, rest) =
              write_loop-writes fuel fd (off + suc n) bytes tmp p (moved io fuel fd off bytes w)
                named_now (now ∙ ap some (take-add off (suc n) bytes)) other in
            rw (write_loop_next io fuel fd off bytes w n more wrote) (full, rest ∙ kept)
      ]
