-- ===== src/Verify/Tools/Unique.antt =====
-- src/verification.go: `toolForKind` against all the readers of a kind.
use autonomy.Base.{List, [], ◌∷◌, Option, none, some}
use autonomy.Text.{Str}
use autonomy.Plan.Capability.{Capability}
use autonomy.Verify.Tools.{VerificationReader, reader_of}

abbrev cons_some : Option VerificationReader → List VerificationReader → List VerificationReader
cons_some none rs = rs
cons_some (some r) rs = r ∷ rs

abbrev last_or : Option VerificationReader → List VerificationReader → Option VerificationReader
last_or found [] = found
last_or found (r ∷ rs) = last_or (some r) rs

module _ {W : Type 0} where
  -- Every capability that can check a kind, as the reader that it makes.
  abbrev pub readers : Str → Str → List (Capability W) → List VerificationReader
  readers kind key [] = []
  readers kind key (c ∷ cs) = cons_some (reader_of kind key c) (readers kind key cs)
