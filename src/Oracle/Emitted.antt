-- ===== src/Oracle/Emitted.antt =====
-- What the registry's contracts file is after an update, in terms of the file before it.
use rome_solidity.Prelude.{
  ◌⊎◌, ◌++◌, refl, ap, false, find, String, ◌≡◌, ◌≢◌, sym, ◌∙◌, true, Option, none, some, List, [],
  ◌∷◌, map, arith, inl, inr, subst, Bool-cases, Option-cases, All, ◌==◌, string_eq, if◌then◌else◌,
  contains, contains-append,
}
use rome_solidity.Oracle.{OracleGatewayV2, RegistryContractEntry, EmitOptions, EmitInput}
use rome_solidity.Oracle.Versions.{
  managed, managed_contracts, update_entry, find_entry, update_for_name,
}
use rome_solidity.Oracle.VersionLaws.{
  HasLiveAt, is_current-HasLiveAt, AtMostOneLive, update_entry-AtMostOneLive,
  update_entry-is_current,
}
use rome_solidity.Oracle.Contracts.{entry_name, new_names, push_all, emitted_names, build_contracts}
use rome_solidity.Oracle.Addresses.{
  deployed_addresses, new_deployed, new_names-new_deployed, IsDeployed, IsDeployed-IsDeployedAt_iff,
}
use rome_solidity.Oracle.ContractLaws.{
  push_all-cons, push_all-ext, push_all-total, find_entry-push_all, find_entry-map,
  new_names-IsDeployedAt, managed_contracts-known, update_for_name-cases,
  update_for_name-KeepsNames, update_for_name_again, update_for_name_deployed,
  build_contracts-names, emitted_names_again, new_names-contains,
}

-- A property of entries that `update` gives
push_all-All :
    (update : String → Option RegistryContractEntry) (P : RegistryContractEntry → Type 0)
    (ns : List String) (out : List RegistryContractEntry)
    → ((n : String) (e : RegistryContractEntry) → update n ≡ some e → P e)
    → push_all update ns ≡ some out
    → All P out
unfolding push_all
push_all-All update P [] out holds h = subst (All P) empty tt
  where
    empty : [] ≡ out
    empty = cc
push_all-All update P (n ∷ ns) out holds h =
    let (e, es, there, rest, is) = push_all-cons update n ns out h in
    subst (All P) (sym is) (holds n e there, push_all-All update P ns es holds rest)

find_entry-All :
    (P : RegistryContractEntry → Type 0) (n : String) (es : List RegistryContractEntry)
    (e : RegistryContractEntry)
    → All P es
    → find_entry n es ≡ some e
    → P e
unfolding find_entry
find_entry-All P n [] e ok h = cc
find_entry-All P n (f ∷ es) e (here, ok) h = elim (Bool-cases (f.name == n)) [
  | inl same ↦ subst P (ground arith) here
  | inr other ↦ find_entry-All P n es e ok (ground arith)
]

-- The first entry of a name
abbrev pub entry_named : String → List RegistryContractEntry → Option RegistryContractEntry
entry_named n es = find (λ (e : RegistryContractEntry). e.name == n) es

find_entry-fresh :
    (n : String) (es : List RegistryContractEntry)
    → contains (map entry_name es) n ≡ false
    → find_entry n es ≡ none
unfolding find_entry
find_entry-fresh n [] h = refl
find_entry-fresh n (e ∷ es) h = ground (arith, find_entry-fresh n es)

module _ (i : EmitInput) where
  abbrev gateway : OracleGatewayV2
  gateway = i.deployments.oracle_gateway_v2

  -- The update of one name
  abbrev updated : String → Option RegistryContractEntry
  updated = update_for_name gateway i.options i.contracts

  -- An update never pushes `undefined`: it gives a list of entries.
  pub build_contracts-total : build_contracts i ≢ none
  unfolding build_contracts emitted_names
  build_contracts-total = push_all-total updated (emitted_names gateway i.contracts) given
    where
      given :
          (n : String) → contains (emitted_names gateway i.contracts) n ≡ true → updated n ≢ none
      given n h =
          let seen = map entry_name i.contracts in
          let new = new_names gateway seen managed_contracts in
          elim (Bool-cases (contains seen n)) [
            | inl old ↦ elim (update_for_name-cases gateway n) [
              | inr (a, at, is) ↦ λ e. ground (arith, is i.options i.contracts)
              | inl kept ↦
                  ground (arith, kept i.options i.contracts, find_entry-map n i.contracts old)
            ]
            | inr fresh ↦
                let (a, at) =
                  new_names-IsDeployedAt gateway seen managed_contracts n managed_contracts-known
                    (ground (arith, contains-append seen new n)) in
                λ e. ground (arith, update_for_name_deployed gateway i.options i.contracts n a at)
          ]

  -- The entries of an update stand in the order of the prior file, the new ones after them, and a name
  -- has the entry that `updateForName` gives for it.
  pub build_contracts-eq-some :
      (out : List RegistryContractEntry)
      → build_contracts i ≡ some out
      → (map entry_name out ≡ emitted_names gateway i.contracts)
        × ((n : String)
            → find_entry n out ≡ (if contains (map entry_name out) n then updated n else none))
  unfolding build_contracts
  build_contracts-eq-some out h =
      let names = build_contracts-names gateway i.options i.contracts out h in
      (
        names,
        λ n. rw names (
            find_entry-push_all updated (update_for_name-KeepsNames gateway i.options i.contracts)
              (emitted_names gateway i.contracts) out n h),
      )

  -- A second update of the contracts file, from the same deployments and with any options, changes nothing.
  pub build_contracts-idempotent :
      (later : EmitOptions) (out : List RegistryContractEntry)
      → build_contracts i ≡ some out
      → build_contracts (record i { contracts = out; options = later }) ≡ some out
  unfolding build_contracts
  build_contracts-idempotent later out h =
      let (names, found) = build_contracts-eq-some out h in
      rw (emitted_names_again gateway i.options i.contracts out names) (
        push_all-ext _ updated (emitted_names gateway i.contracts) (λ n c.
          update_for_name_again gateway i.options i.contracts later out n
            (ground (arith, found n, names)))
        ∙ h)

  -- A managed contract that the deployments file has at an address has, after an update, an entry with a
  -- live version at that address, letter case aside.
  pub build_contracts-HasLiveAt :
      (out : List RegistryContractEntry) (n a : String)
      → build_contracts i ≡ some out
      → IsDeployed gateway n a
      → (e : RegistryContractEntry) × (entry_named n out ≡ some e) × HasLiveAt a e.versions
  unfolding managed emitted_names find_entry
  build_contracts-HasLiveAt out n a h at =
      let (c, is, there) = (IsDeployed-IsDeployedAt_iff gateway n a).0 at in
      let seen = map entry_name i.contracts in
      let (names, found) = build_contracts-eq-some out h in
      let listed : contains (map entry_name out) n ≡ true =
        rw (names, contains-append)
          (new_names-contains gateway seen managed_contracts n a c is there) in
      let e = update_entry i.options n a (find_entry n i.contracts) in
      (
        e,
        ground (
          arith,
          found n,
          update_for_name_deployed gateway i.options i.contracts n a (c, is, there),
        ),
        is_current-HasLiveAt a e.versions
            (update_entry-is_current i.options a n (find_entry n i.contracts)),
      )

  -- What an update makes of the contract of a name: its prior entry, or nothing, as before, or, where the
  -- deployments file has it at an address, an entry with a live version there
  abbrev pub Becomes : List RegistryContractEntry → String → Type 0
  Becomes out n =
      (entry_named n out ≡ entry_named n i.contracts)
      ⊎ ((a : String) × IsDeployed gateway n a
          × ((e : RegistryContractEntry) × (entry_named n out ≡ some e) × HasLiveAt a e.versions))

  build_contracts-Becomes :
      (out : List RegistryContractEntry) (n : String) → build_contracts i ≡ some out → Becomes out n
  unfolding find_entry emitted_names
  build_contracts-Becomes out n h = elim (update_for_name-cases gateway n) [
    | inr (a, at, is) ↦
        let there = (IsDeployed-IsDeployedAt_iff gateway n a).1 at in
        inr (a, there, build_contracts-HasLiveAt out n a h there)
    | inl kept ↦
        let (names, found) = build_contracts-eq-some out h in
        let seen = map entry_name i.contracts in
        inl (elim (Bool-cases (contains (map entry_name out) n)) [
          | inl listed ↦ ground (arith, found n, kept i.options i.contracts)
          | inr absent ↦
              let fresh : contains seen n ≡ false =
                ground (
                  arith,
                  contains-append seen (new_names gateway seen managed_contracts) n,
                  names,
                ) in
              ground (arith, found n, find_entry-fresh n i.contracts fresh)
        ])
  ]

  -- An update always gives a list of entries. They have the names of the prior file in their order, and
  -- after them the names of the managed contracts that are deployed and new there, in the order in which
  -- the script writes them: BatchReader, OracleAdapterFactory, PythPullAdapterImpl,
  -- SwitchboardV3AdapterImpl, CachedPythAdapterImpl, CachedFeedAdapterImpl. Each name has its prior
  -- entry, if any, or, where the deployments file has it at an address, an entry with a live version there.
  pub build_contracts-lists :
      (out : List RegistryContractEntry) × (build_contracts i ≡ some out)
      × (map entry_name out
          ≡ map entry_name i.contracts
            ++ new_deployed (map entry_name i.contracts) (deployed_addresses gateway))
      × ((n : String) → Becomes out n)
  unfolding emitted_names
  build_contracts-lists = elim (Option-cases (build_contracts i)) [
    | inl nothing ↦ absurd (build_contracts-total nothing)
    | inr (out, is) ↦
        let seen = map entry_name i.contracts in
        (
          out,
          is,
          (build_contracts-eq-some out is).0
              ∙ ap (λ ns. seen ++ ns) (new_names-new_deployed gateway seen),
          λ n. build_contracts-Becomes out n is,
        )
  ]

  -- Where no contract of the prior file has two live versions, none has after an update.
  pub build_contracts-AtMostOneLive :
      (out : List RegistryContractEntry)
      → build_contracts i ≡ some out
      → All (λ e. AtMostOneLive e.versions) i.contracts
      → All (λ e. AtMostOneLive e.versions) out
  unfolding build_contracts
  build_contracts-AtMostOneLive out h ok =
      let P = λ (e : RegistryContractEntry). AtMostOneLive e.versions in
      push_all-All updated P (emitted_names gateway i.contracts) out
        (λ n e is.
          let prior : (p : RegistryContractEntry) → find_entry n i.contracts ≡ some p → P p =
            λ p there. find_entry-All P n i.contracts p ok there in
          elim (update_for_name-cases gateway n) [
            | inl kept ↦ prior e (sym (kept i.options i.contracts) ∙ is)
            | inr (a, at, new) ↦
                let same : update_entry i.options n a (find_entry n i.contracts) ≡ e =
                  ground (arith, new i.options i.contracts) in
                subst P same
                  (update_entry-AtMostOneLive i.options a n (find_entry n i.contracts) prior)
          ])
        h
