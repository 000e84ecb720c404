-- ===== src/Common/Endpoints.antt =====
-- HOST:PORT, as the command lines split it with std::string::find and substr.
use mathlib.Core.Path.{◌≡◌, refl}
use mathlib.Core.Bool.{false}
use mathlib.Core.Option.{Option, none, some}
use mathlib.Core.List.{[], ◌∷◌, ◌++◌}
use exn_gs.Common.Lists.{All}
use exn_gs.Common.Strings.{Text}
use exn_gs.Common.Tests.{◌==◌, if◌then◌else◌}

-- The parts before and behind the first colon.
abbrev pub split_at_colon : Text → Option (Text × Text)
split_at_colon [] = none
split_at_colon (c ∷ cs) =
    let rest : Option (Text × Text) = elim (split_at_colon cs) [
      | none ↦ none
      | some (front, back) ↦ some (c ∷ front, back)
    ] in
    if c == b':' then some ([], cs) else rest

pub split_at_colon-append :
    (host rest : Text)
    → All (λ c. (c == b':') ≡ false) host
    → split_at_colon (host ++ b':' ∷ rest) ≡ some (host, rest)
split_at_colon-append [] rest h = refl
split_at_colon-append (c ∷ cs) rest h = rw (h.0, split_at_colon-append cs rest h.1) refl
