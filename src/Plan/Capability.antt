-- ===== src/Plan/Capability.antt =====
-- src/capability/spec/spec.go, and the interface and the factory of src/capability/capability.go.
-- `Domain`, `Provider` and `Description` are read by nothing that is modelled.
pub mod Registry
use autonomy.Base.{
  Bool, true, false, ◌||◌, List, [], ◌∷◌, ◌++◌, Option, none, some, any, if◌then◌else◌,
}
use autonomy.Text.{Str, codes, str_eq, trim_space, canonical}
use autonomy.Dict.{Dict, lookup, put}

pub record Field : Type 0 where
  pub name : Str
  pub aliases : List Str
  pub required : Bool
  pub description : Str
  pub kind : Str

-- The interface `Declared`: a call signature.
pub record Signature : Type 0 where
  pub inputs : List Field
  pub outputs : List Field

-- What runs: `declared` is `none` for a capability that does not implement `Declared`, and
-- `checks_kind` for one that does not implement `SystemCheck`. A run reads and changes whatever
-- lies outside the program, a `W`; it answers with an output and perhaps an error.
pub record Capability (W : Type 0) : Type 0 where
  pub name : Str
  pub declared : Option Signature
  pub checks_kind : Option Str
  pub run : Dict Str → W → Dict Str × Option Str × W

pub record Factory (W : Type 0) : Type 0 where
  pub capabilities : List (Capability W)
  pub by_name : Dict (Capability W)

module _ {W : Type 0} where
  unfoldable pub get : Str → Factory W → Option (Capability W)
  get name f = lookup name f.by_name

  unfoldable pub get_all : Factory W → List (Capability W)
  get_all f = f.capabilities

  -- The loop of `Register`: the first capability of that name gives way.
  unfoldable pub replace_named : Capability W → List (Capability W) → List (Capability W)
  replace_named c [] = []
  replace_named c (d ∷ ds) = if str_eq d.name c.name then c ∷ ds else d ∷ replace_named c ds

  abbrev pub registered :
      Option (Capability W) → Capability W → List (Capability W) → List (Capability W)
  registered (some _) c cs = replace_named c cs
  registered none c cs = cs ++ c ∷ []

  unfoldable pub register : Capability W → Factory W → Factory W
  register c f = record {
    capabilities = registered (lookup c.name f.by_name) c f.capabilities;
    by_name = put c.name c f.by_name;
  }

  abbrev pub new_factory : Factory W
  new_factory = record { capabilities = []; by_name = [] }

-- src/plan_lineage.go: `declaredFieldsOf` with the capability's lists of fields, as `declaredInputsOf`
-- and `declaredOutputsOf` call it. There may be no factory yet.
module _ {W : Type 0} where
  unfoldable pub signature_of : Option (Factory W) → Str → Option Signature
  signature_of none name = none
  signature_of (some f) name = elim (get (canonical name) f) [ none ↦ none | some c ↦ c.declared ]

  unfoldable pub declared_inputs_of : Option (Factory W) → Str → Option (List Field)
  declared_inputs_of f name = elim (signature_of f name) [ none ↦ none | some s ↦ some s.inputs ]

  unfoldable pub declared_outputs_of : Option (Factory W) → Str → Option (List Field)
  declared_outputs_of f name = elim (signature_of f name) [ none ↦ none | some s ↦ some s.outputs ]

-- Whether a field answers to a name.
unfoldable pub answers_to : Str → Field → Bool
answers_to name field = str_eq field.name name || any (λ a. str_eq a name) field.aliases

-- `fieldAccepts`. The name is trimmed, the declaration is not.
unfoldable pub field_accepts : List Field → Str → Bool
field_accepts fields name = any (answers_to (trim_space name)) fields
