-- ===== src/Domains/Maps.antt =====
-- The lookups of the plan: maps built from lists, and sorted lists.
use rome_solidity.Prelude.{
  ℕ, ◌≡◌, refl, none, some, List, [], ◌∷◌, arith, ◌==◌, nat_eq, if◌then◌else◌, lookup, insert,
  lookup-insert, is_some, ◌∙◌, ap,
}
use rome_solidity.Domains.{DomainEntry, kind_in, Distinct}
use rome_solidity.Domains.Plan.{map_loop, map_of, insert_sorted, sort_by_domain}

kind_in-insert_sorted :
    (d : ℕ) (e : DomainEntry) (xs : List DomainEntry)
    → kind_in d (insert_sorted e xs) ≡ (if e.domain == d then some e.kind else kind_in d xs)
unfolding insert_sorted
kind_in-insert_sorted d e [] = refl
kind_in-insert_sorted d e (x ∷ xs) = ground (arith, kind_in-insert_sorted d e xs)

-- Sorting changes what no lookup finds, repeated domains included.
pub kind_in-sort_by_domain :
    (d : ℕ) (xs : List DomainEntry) → kind_in d (sort_by_domain xs) ≡ kind_in d xs
unfolding sort_by_domain
kind_in-sort_by_domain d [] = refl
kind_in-sort_by_domain d (e ∷ es) =
    kind_in-insert_sorted d e (sort_by_domain es)
    ∙ ap (λ k. if e.domain == d then some e.kind else k) (kind_in-sort_by_domain d es)

Distinct-insert_sorted :
    (e : DomainEntry) (xs : List DomainEntry)
    → kind_in e.domain xs ≡ none
    → Distinct xs
    → Distinct (insert_sorted e xs)
unfolding insert_sorted
Distinct-insert_sorted e [] h k = (refl, tt)
Distinct-insert_sorted e (x ∷ xs) h k =
    ground (arith, Distinct-insert_sorted e xs, kind_in-insert_sorted x.domain e xs)

pub Distinct-sort_by_domain : (xs : List DomainEntry) → Distinct xs → Distinct (sort_by_domain xs)
unfolding sort_by_domain
Distinct-sort_by_domain [] h = tt
Distinct-sort_by_domain (e ∷ es) (fresh, h) =
    Distinct-insert_sorted e (sort_by_domain es) (kind_in-sort_by_domain e.domain es ∙ fresh)
      (Distinct-sort_by_domain es h)

lookup-map_loop :
    (d : ℕ) (m : List (ℕ × ℕ)) (es : List DomainEntry)
    → Distinct es
    → lookup d (map_loop m es) ≡ (if is_some (kind_in d es) then kind_in d es else lookup d m)
unfolding map_loop
lookup-map_loop d m [] h = refl
lookup-map_loop d m (e ∷ es) (fresh, h) =
    ground
      (arith, lookup-map_loop d (insert e.domain e.kind m) es h, lookup-insert e.domain d e.kind m)

-- In a list without repeats the map finds what the list says.
pub lookup-map_of :
    (d : ℕ) (es : List DomainEntry) → Distinct es → lookup d (map_of es) ≡ kind_in d es
unfolding map_of
lookup-map_of d es h = ground (arith, lookup-map_loop d [] es h)
