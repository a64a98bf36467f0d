-- ===== src/Verify/Tools.antt =====
-- src/verification.go: which system tool checks a kind of object.
pub mod Unique
use autonomy.Base.{
  ℕ, suc, Bool, true, false, not, List, [], ◌∷◌, Option, none, some, ◌==◌, if◌then◌else◌, is_nil,
}
use autonomy.Text.{Str, str_eq, canonical}
use autonomy.Plan.Capability.{
  Field, Capability, Factory, get, get_all, declared_outputs_of, field_accepts,
}

pub record VerificationReader : Type 0 where
  pub capability : Str
  pub input : Str

-- The loop of `outputKind`.
unfoldable pub kind_of_field : Str → List Field → Str
kind_of_field key [] = []
kind_of_field key (field ∷ fields) =
    if field_accepts (field ∷ []) key then canonical field.kind else kind_of_field key fields

-- The loop of `inputForKind`: `first` is the first field of the kind.
unfoldable pub input_from : Str → Str → Str → List Field → Str
input_from kind key first [] = first
input_from kind key first (field ∷ fields) =
    let rest = input_from kind key first fields in
    let rest_first = input_from kind key field.name fields in
    if not (str_eq (canonical field.kind) kind)
    then rest
    else if field_accepts (field ∷ []) key
    then field.name
    else if is_nil first
    then rest_first
    else rest

unfoldable pub input_for_kind : List Field → Str → Str → Str
input_for_kind inputs kind key = input_from (canonical kind) (canonical key) [] inputs

abbrev reader_with : Str → Str → Option VerificationReader
reader_with name input =
    if is_nil input then none else some (record { capability = name; input = input })

module _ {W : Type 0} where
  unfoldable pub output_kind : Option (Factory W) → Str → Str → Str
  output_kind f producer key = elim (declared_outputs_of f producer) [
    | none ↦ []
    | some outputs ↦ kind_of_field key outputs
  ]

  -- What one round of the loop of `toolForKind` makes of a capability: `none` is a `continue`.
  unfoldable pub reader_of : Str → Str → Capability W → Option VerificationReader
  reader_of kind key c = elim c.checks_kind [
    | none ↦ none
    | some checked ↦ if not (str_eq (canonical checked) kind) then none else elim c.declared [
      | none ↦ none
      | some signature ↦ reader_with c.name (input_for_kind signature.inputs kind key)
    ]
  ]

  -- The loop: the last that was found, and how many.
  unfoldable pub find_readers :
      Str
      → Str
      → Option VerificationReader
      → ℕ
      → List (Capability W)
      → Option VerificationReader × ℕ
  find_readers kind key found n [] = (found, n)
  find_readers kind key found n (c ∷ cs) = elim (reader_of kind key c) [
    | none ↦ find_readers kind key found n cs
    | some r ↦ find_readers kind key (some r) (suc n) cs
  ]

  unfoldable pub tool_for_kind : Option (Factory W) → Str → Str → Option VerificationReader
  tool_for_kind none kind key = none
  tool_for_kind (some f) kind key =
      let (found, n) = find_readers (canonical kind) key none 0 (get_all f) in
      if is_nil (canonical kind) then none else if n == 1 then found else none

  abbrev has_check : Option (Capability W) → Bool
  has_check none = false
  has_check (some c) = elim c.checks_kind [ none ↦ false | some _ ↦ true ]

  unfoldable pub is_verification_tool : Option (Factory W) → Str → Bool
  is_verification_tool none name = false
  is_verification_tool (some f) name = has_check (get (canonical name) f)
