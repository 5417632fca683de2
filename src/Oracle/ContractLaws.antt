-- ===== src/Oracle/ContractLaws.antt =====
-- What an update of the contracts file holds, and that a second one changes nothing.
use mathlib.Core.List.{append-nil}
use rome_solidity.Prelude.{
  String, ◌≡◌, ◌≢◌, ◌⊎◌, refl, sym, ◌∙◌, true, Option, none, some, List, [], ◌∷◌, ◌++◌, ◌||◌, map,
  arith, inl, inr, Bool-cases, Option-cases, All, find, eq_iff, ◌==◌, string_eq, if◌then◌else◌,
  contains, contains-append,
}
use rome_solidity.Oracle.{OracleGatewayV2, RegistryContractEntry, EmitOptions}
use rome_solidity.Oracle.Versions.{
  ManagedContract, managed, managed_contracts, address_at, update_entry, find_entry,
  update_for_name,
}
use rome_solidity.Oracle.VersionLaws.{
  update_entry-name, update_entry_current, update_entry-is_current,
}
use rome_solidity.Oracle.Contracts.{entry_name, new_names, push_all, emitted_names}

-- `update` gives an entry its name.
abbrev pub KeepsNames : (String → Option RegistryContractEntry) → Type 0
KeepsNames update = (n : String) (e : RegistryContractEntry) → update n ≡ some e → e.name ≡ n

pub find_entry-name :
    (n : String) (es : List RegistryContractEntry) (e : RegistryContractEntry)
    → find_entry n es ≡ some e
    → e.name ≡ n
unfolding find_entry
find_entry-name n [] e h = cc
find_entry-name n (f ∷ es) e h = ground (arith, eq_iff f.name n, find_entry-name n es e)

pub push_all-cons :
    (update : String → Option RegistryContractEntry) (n : String) (ns : List String)
    (out : List RegistryContractEntry)
    → push_all update (n ∷ ns) ≡ some out
    → (e : RegistryContractEntry) × (es : List RegistryContractEntry) × (update n ≡ some e)
      × (push_all update ns ≡ some es)
      × (out ≡ e ∷ es)
unfolding push_all
push_all-cons update n ns out h = elim (Option-cases (update n)) [
  | inl absent ↦ ground arith
  | inr (e, there) ↦ elim (Option-cases (push_all update ns)) [
    | inl absent ↦ ground arith
    | inr (es, rest) ↦ (e, es, there, rest, ground arith)
  ]
]

module _ (update : String → Option RegistryContractEntry) (names : KeepsNames update) where
  push_all-names :
      (ns : List String) (out : List RegistryContractEntry)
      → push_all update ns ≡ some out
      → map entry_name out ≡ ns
  unfolding push_all
  push_all-names [] out h = ground arith
  push_all-names (n ∷ ns) out h =
      let (e, es, there, rest, is) = push_all-cons update n ns out h in
      rw (is, names n e there, push_all-names ns es rest) refl

  pub find_entry-push_all :
      (ns : List String) (out : List RegistryContractEntry) (n : String)
      → push_all update ns ≡ some out
      → find_entry n out ≡ (if contains ns n then update n else none)
  unfolding push_all find_entry
  find_entry-push_all [] out n h = ground arith
  find_entry-push_all (m ∷ ns) out n h =
      let (e, es, there, rest, is) = push_all-cons update m ns out h in
      rw is (
        ground
          (arith, names m e there, eq_iff m n, eq_iff e.name n, find_entry-push_all ns es n rest))

pub push_all-ext :
    (f g : String → Option RegistryContractEntry) (ns : List String)
    → ((n : String) → contains ns n ≡ true → f n ≡ g n)
    → push_all f ns ≡ push_all g ns
unfolding push_all
push_all-ext f g [] h = refl
push_all-ext f g (n ∷ ns) h =
    let here : f n ≡ g n = h n (ground (arith, eq_iff n n)) in
    let later : push_all f ns ≡ push_all g ns =
      push_all-ext f g ns (λ m c. h m (ground (arith, eq_iff n m))) in
    ground arith

pub push_all-total :
    (update : String → Option RegistryContractEntry) (ns : List String)
    → ((n : String) → contains ns n ≡ true → update n ≢ none)
    → push_all update ns ≢ none
unfolding push_all
push_all-total update [] h = λ e. cc
push_all-total update (n ∷ ns) h = ground (
  arith,
  h n (ground (arith, eq_iff n n)),
  push_all-total update ns (λ m c. h m (ground (arith, eq_iff n m))),
)

pub find_entry-map :
    (n : String) (es : List RegistryContractEntry)
    → contains (map entry_name es) n ≡ true
    → find_entry n es ≢ none
unfolding find_entry
find_entry-map n [] h = cc
find_entry-map n (e ∷ es) h = ground (arith, find_entry-map n es)

new_names-eq-nil :
    (og : OracleGatewayV2) (seen ns : List String) (cs : List ManagedContract)
    → ((k : String) → contains seen k ≡ true → contains ns k ≡ true)
    → ((k : String) → contains (new_names og seen cs) k ≡ true → contains ns k ≡ true)
    → new_names og ns cs ≡ []
unfolding new_names
new_names-eq-nil og seen ns [] old new = refl
new_names-eq-nil og seen ns (c ∷ cs) old new =
    let rest = new_names-eq-nil og seen ns cs old (λ k h. new k (ground arith)) in
    ground (arith, rest, old c.name, new c.name, eq_iff c.name c.name)

-- An address for the name: it is managed, and deployed there.
abbrev pub IsDeployedAt : OracleGatewayV2 → String → String → Type 0
IsDeployedAt og n a = (c : ManagedContract) × (managed n ≡ some c) × (address_at og c.key ≡ some a)

pub update_for_name_deployed :
    (og : OracleGatewayV2) (options : EmitOptions) (prior : List RegistryContractEntry)
    (n a : String)
    → IsDeployedAt og n a
    → update_for_name og options prior n ≡ some (update_entry options n a (find_entry n prior))
unfolding update_for_name
update_for_name_deployed og options prior n a (c, is, there) = rw (update_for_name, is, there) refl

-- An entry is either passed through or updated to the deployed address.
pub update_for_name-cases :
    (og : OracleGatewayV2) (n : String)
    → ((options : EmitOptions) (prior : List RegistryContractEntry)
        → update_for_name og options prior n ≡ find_entry n prior)
      ⊎ ((a : String) × IsDeployedAt og n a
          × ((options : EmitOptions) (prior : List RegistryContractEntry)
              → update_for_name og options prior n
                ≡ some (update_entry options n a (find_entry n prior))))
unfolding update_for_name
update_for_name-cases og n = elim (Option-cases (managed n)) [
  | inl unmanaged ↦ inl (λ options prior. rw (update_for_name, unmanaged) refl)
  | inr (c, is) ↦ elim (Option-cases (address_at og c.key)) [
    | inl absent ↦ inl (λ options prior. rw (update_for_name, is, absent) refl)
    | inr (a, there) ↦
        let d : IsDeployedAt og n a = (c, is, there) in
        inr (a, d, λ options prior. update_for_name_deployed og options prior n a d)
  ]
]

pub new_names-IsDeployedAt :
    (og : OracleGatewayV2) (seen : List String) (cs : List ManagedContract) (n : String)
    → All (λ c. managed c.name ≡ some c) cs
    → contains (new_names og seen cs) n ≡ true
    → (a : String) × IsDeployedAt og n a
unfolding new_names
new_names-IsDeployedAt og seen [] n known h = cc
new_names-IsDeployedAt og seen (c ∷ cs) n (here, known) h =
    let rest = new_names-IsDeployedAt og seen cs n known in
    elim (Option-cases (address_at og c.key)) [
      | inl absent ↦ rest (ground arith)
      | inr (a, there) ↦ elim (Bool-cases (c.name == n)) [
        | inl same ↦ (a, (c, ground (arith, eq_iff c.name n), there))
        | inr other ↦ rest (ground arith)
      ]
    ]

pub managed_contracts-known : All (λ c. managed c.name ≡ some c) managed_contracts
unfolding managed
managed_contracts-known = (refl, (refl, (refl, (refl, (refl, (refl, tt))))))

module _ (og : OracleGatewayV2) (options : EmitOptions) (prior : List RegistryContractEntry) where
  pub update_for_name-KeepsNames : KeepsNames (update_for_name og options prior)
  update_for_name-KeepsNames n e h = elim (update_for_name-cases og n) [
    | inl kept ↦ find_entry-name n prior e (sym (kept options prior) ∙ h)
    | inr (a, at, updated) ↦ ground (
      arith,
      updated options prior,
      update_entry-name options a n (find_entry n prior) (find_entry-name n prior),
    )
  ]

  pub update_for_name_again :
      (later : EmitOptions) (out : List RegistryContractEntry) (n : String)
      → find_entry n out ≡ update_for_name og options prior n
      → update_for_name og later out n ≡ update_for_name og options prior n
  update_for_name_again later out n h = elim (update_for_name-cases og n) [
    | inl kept ↦ kept later out ∙ h
    | inr (a, at, updated) ↦
        let u = update_entry options n a (find_entry n prior) in
        rw
          (
            updated later out,
            h,
            updated options prior,
            update_entry_current later a n u
                (update_entry-is_current options a n (find_entry n prior)),
          )
          refl
  ]

  pub build_contracts-names :
      (out : List RegistryContractEntry)
      → push_all (update_for_name og options prior) (emitted_names og prior) ≡ some out
      → map entry_name out ≡ emitted_names og prior
  build_contracts-names out h =
      push_all-names (update_for_name og options prior) update_for_name-KeepsNames
        (emitted_names og prior) out h

  pub emitted_names_again :
      (out : List RegistryContractEntry)
      → map entry_name out ≡ emitted_names og prior
      → emitted_names og out ≡ emitted_names og prior
  unfolding emitted_names
  emitted_names_again out h =
      let seen = map entry_name prior in
      let new = new_names og seen managed_contracts in
      let none_new : new_names og (seen ++ new) managed_contracts ≡ [] =
        new_names-eq-nil og seen (seen ++ new) managed_contracts
          (λ k c. ground (arith, contains-append seen new k))
          (λ k c. ground (arith, contains-append seen new k)) in
      rw (h, none_new, append-nil) refl

pub new_names-contains :
    (og : OracleGatewayV2) (seen : List String) (cs : List ManagedContract) (n a : String)
    (c : ManagedContract)
    → find (λ (c : ManagedContract). c.name == n) cs ≡ some c
    → address_at og c.key ≡ some a
    → (contains seen n || contains (new_names og seen cs) n) ≡ true
unfolding new_names
new_names-contains og seen [] n a c h there = cc
new_names-contains og seen (d ∷ cs) n a c h there =
    ground (arith, eq_iff d.name n, new_names-contains og seen cs n a c)
