-- ===== src/Plan/Capability/Registry.antt =====
-- src/capability/capability.go: the factory's list against its map.
use autonomy.Base.{
  ◌≡◌, refl, ◌∙◌, sym, ap, List, [], ◌∷◌, ◌++◌, Option, none, some, if◌then◌else◌, arith, inl, inr,
  Option-cases,
}
use autonomy.Text.{Str, str_eq}
use autonomy.Text.Laws.{str_eq_iff}
use autonomy.Dict.{lookup}
use autonomy.Dict.Laws.{lookup-put}
use autonomy.Plan.Capability.{
  Capability, Factory, get, get_all, replace_named, registered, register, new_factory,
}

module _ {W : Type 0} where
  -- The first capability of a list that has a name.
  abbrev pub find_named : Str → List (Capability W) → Option (Capability W)
  find_named n [] = none
  find_named n (c ∷ cs) = if str_eq c.name n then some c else find_named n cs

  -- Looking a name up gives the capability of that name in the list, if there is one.
  abbrev pub Agrees : Factory W → Type 0
  Agrees f = (n : Str) → get n f ≡ find_named n (get_all f)

  -- No two capabilities of a list share a name.
  abbrev pub NamesDiffer : List (Capability W) → Type 0
  NamesDiffer [] = Unit
  NamesDiffer (c ∷ cs) = (find_named c.name cs ≡ none) × NamesDiffer cs

  pub record IsRegistry (f : Factory W) : Type 0 where
    pub agrees : Agrees f
    pub differ : NamesDiffer (get_all f)

  find_named-append :
      (n : Str) (cs : List (Capability W)) (c : Capability W)
      → find_named n cs ≡ none
      → find_named n (cs ++ c ∷ []) ≡ (if str_eq c.name n then some c else none)
  find_named-append n [] c h = refl
  find_named-append n (d ∷ cs) c h = ground (arith, find_named-append n cs c)

  find_named-append_some :
      (n : Str) (cs : List (Capability W)) (c d : Capability W)
      → find_named n cs ≡ some d
      → find_named n (cs ++ c ∷ []) ≡ some d
  find_named-append_some n [] c d h = cc
  find_named-append_some n (e ∷ cs) c d h = ground (arith, find_named-append_some n cs c d)

  -- The list after a capability took the place of the one of its name.
  find_named-replace :
      (n : Str) (cs : List (Capability W)) (c d : Capability W)
      → find_named c.name cs ≡ some d
      → find_named n (replace_named c cs) ≡ (if str_eq c.name n then some c else find_named n cs)
  unfolding replace_named
  find_named-replace n [] c d h = cc
  find_named-replace n (e ∷ cs) c d h = ground (
    arith,
    find_named-replace n cs c d,
    str_eq_iff e.name c.name,
    str_eq_iff c.name n,
    str_eq_iff e.name n,
  )

  NamesDiffer-append :
      (cs : List (Capability W)) (c : Capability W)
      → find_named c.name cs ≡ none
      → NamesDiffer cs
      → NamesDiffer (cs ++ c ∷ [])
  NamesDiffer-append [] c h v = (refl, tt)
  NamesDiffer-append (d ∷ cs) c h v = ground (
    arith,
    find_named-append d.name cs c,
    str_eq_iff d.name c.name,
    str_eq_iff c.name d.name,
    NamesDiffer-append cs c,
  )

  NamesDiffer-replace :
      (cs : List (Capability W)) (c d : Capability W)
      → find_named c.name cs ≡ some d
      → NamesDiffer cs
      → NamesDiffer (replace_named c cs)
  unfolding replace_named
  NamesDiffer-replace [] c d h v = cc
  NamesDiffer-replace (e ∷ cs) c d h v = ground (
    arith,
    str_eq_iff e.name c.name,
    str_eq_iff c.name e.name,
    find_named-replace e.name cs c d,
    NamesDiffer-replace cs c d,
  )

  find_named-registered :
      (o : Option (Capability W)) (c : Capability W) (cs : List (Capability W)) (n : Str)
      → find_named c.name cs ≡ o
      → find_named n (registered o c cs) ≡ (if str_eq c.name n then some c else find_named n cs)
  find_named-registered (some d) c cs n h = find_named-replace n cs c d h
  find_named-registered none c cs n h = elim (Option-cases (find_named n cs)) [
    | inl e ↦ rw (find_named-append n cs c e, e)
    | inr (d, e) ↦ ground (arith, find_named-append_some n cs c d e, str_eq_iff c.name n)
  ]

  NamesDiffer-registered :
      (o : Option (Capability W)) (c : Capability W) (cs : List (Capability W))
      → find_named c.name cs ≡ o
      → NamesDiffer cs
      → NamesDiffer (registered o c cs)
  NamesDiffer-registered (some d) c cs h v = NamesDiffer-replace cs c d h v
  NamesDiffer-registered none c cs h v = NamesDiffer-append cs c h v

  pub new_factory-IsRegistry : IsRegistry new_factory
  unfolding get get_all lookup
  new_factory-IsRegistry = record { agrees = λ n. refl; differ = tt }

  get-register :
      (n : Str) (c : Capability W) (f : Factory W)
      → get n (register c f) ≡ (if str_eq c.name n then some c else get n f)
  unfolding get register
  get-register n c f = lookup-put c.name n c f.by_name

  -- If the list and the map agree and no name is in the list twice, the same holds after
  -- registering; the new capability answers to its name, and every other name answers as before.
  pub register-IsRegistry :
      (c : Capability W) (f : Factory W)
      → IsRegistry f
      → IsRegistry (register c f)
        × ((n : Str) → get n (register c f) ≡ (if str_eq c.name n then some c else get n f))
  unfolding get register get_all
  register-IsRegistry c f v =
      let held = lookup c.name f.by_name in
      let same : find_named c.name f.capabilities ≡ held = sym (v.agrees c.name) in
      (
        record {
          agrees = λ n.
              get-register n c f
              ∙ (ap (λ o. if str_eq c.name n then some c else o) (v.agrees n)
                  ∙ sym (find_named-registered held c f.capabilities n same));
          differ = NamesDiffer-registered held c f.capabilities same v.differ;
        },
        λ n. get-register n c f,
      )
