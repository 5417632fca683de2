-- ===== src/FileStore/Entry.antt =====
-- scripts/bridge/deploy-rubicon-v13.ts: `withEntry` and `addRecord`. JSON.parse and JSON.stringify are
-- arguments.
use Prim.Native.String.{[], ◌∷◌, ◌++◌}
use text.Mathlib.TextLemmas.{cons-append}
use rome_solidity.Prelude.{
  String, ◌≡◌, refl, not, Option, none, some, ◌==◌, string_eq, if◌then◌else◌, Result, ok, err,
}
use rome_solidity.Prelude.Json.{Fields, end, field}
use rome_solidity.Prelude.Text.{starts_with}
use rome_solidity.Deploy.{record_key}
use rome_solidity.Deploy.Record.{V13Record, record_json}
use rome_solidity.FileStore.{
  FileIo, StoreError, io_failed, not_canonical, write_atomic, assert_unchanged,
}

-- `JSON.parse` and `JSON.stringify(…, null, 2)` of an object
pub record JsonText : Type 0 where
  pub parse : String → Result String Fields
  pub stringify : Fields → String

-- The text before the last "\n}"
unfoldable pub before_close : String → Option String
before_close [] = none
before_close (c ∷ s) = elim (before_close s) [
  | some t ↦ some (c ∷ t)
  | none ↦ if starts_with (c ∷ s) "\n}" then some "" else none
]

drop_last : String → String
drop_last [] = []
drop_last (c ∷ []) = []
drop_last (c ∷ d ∷ s) = c ∷ drop_last (d ∷ s)

-- `s.slice(0, s.lastIndexOf("\n}"))`: without one the index is -1.
unfoldable pub slice_to_close : String → String
unfolding before_close drop_last
slice_to_close s = elim (before_close s) [ some t ↦ t | none ↦ drop_last s ]

-- `s.slice(2, …)` of such a text
unfoldable pub drop_two : String → String
drop_two [] = []
drop_two (c ∷ []) = []
drop_two (c ∷ d ∷ s) = s

module _ (json : JsonText) where
  -- `JSON.stringify({ [RECORD_KEY]: record }, null, 2)`
  unfoldable pub entry_text : V13Record → String
  entry_text record_ = json.stringify (field record_key (record_json record_) end)

  -- The snapshot plus the one entry
  unfoldable pub with_entry : Option String → V13Record → Result StoreError String
  unfolding entry_text slice_to_close drop_two
  with_entry none record_ = ok (entry_text record_ ++ "\n")
  with_entry (some snapshot) record_ =
      let entry = entry_text record_ in
      let longer = slice_to_close snapshot ++ ",\n" ++ drop_two (slice_to_close entry) ++ "\n}\n" in
      elim (json.parse snapshot) [
        | err e ↦ err (io_failed e)
        | ok fields ↦
            if not ((json.stringify fields ++ "\n") == snapshot)
            then err not_canonical
            else if snapshot == "{}\n"
            then ok (entry ++ "\n")
            else ok longer
      ]

  unfoldable pub add_record :
      {S : Type 0} (io : FileIo S)
      → String
      → Option String
      → V13Record
      → S
      → Result StoreError (Unit {0}) × S
  unfolding with_entry
  add_record io file snapshot record_ s = elim (with_entry snapshot record_) [
    | err e ↦ (err e, s)
    | ok text ↦
        write_atomic io (assert_unchanged io file snapshot) (assert_unchanged io file snapshot) file
          text s
  ]

  -- `write`
  unfoldable pub write_file :
      {S : Type 0} (io : FileIo S) → String → Fields → S → Result StoreError (Unit {0}) × S
  write_file io file data_ s =
      write_atomic io (λ _. ok tt) (λ _. ok tt) file (json.stringify data_ ++ "\n") s

before_close-append : (head : String) → before_close (head ++ "\n}\n") ≡ some head
unfolding before_close starts_with
before_close-append [] = refl
before_close-append (c ∷ head) = rw (cons-append, before_close, before_close-append head) refl
