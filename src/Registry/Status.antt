-- ===== src/Registry/Status.antt =====
-- internal/controlplane/tenant.go and lifecycle.go: the statuses and the moves between them.
use native.Mathlib.Decide.{ℕ_discrete}
use joysteed_maa_s.Base.{
  Bool, true, false, ◌&&◌, ◌||◌, List, [], ◌∷◌, Str, any, Result, ok, err, if◌then◌else◌,
}

-- `Status` is a string in Go: `other` stands for every text that is not one of the five constants.
pub data Status : Type 0 where
  registered trial active suspended deregistered : Status
  other : Str → Status

unfoldable pub Status-discrete : Discrete Status
Status-discrete = hlevel ℕ_discrete

abbrev pub same_status : Status → Status → Bool
same_status s t = elim (Status-discrete s t) [ yes _ ↦ true | no _ ↦ false ]

unfoldable pub all_statuses : List Status
all_statuses = registered ∷ trial ∷ active ∷ suspended ∷ deregistered ∷ []

unfoldable pub valid : Status → Bool
valid registered = true
valid trial = true
valid active = true
valid suspended = true
valid deregistered = true
valid (other s) = false

unfoldable pub serves_traffic : Status → Bool
serves_traffic s = same_status s trial || same_status s active

-- The adjacency map `allowedTransitions`; a status that is no key of the map has no row.
unfoldable pub allowed_transitions : Status → List Status
allowed_transitions registered = trial ∷ active ∷ deregistered ∷ []
allowed_transitions trial = active ∷ suspended ∷ deregistered ∷ []
allowed_transitions active = suspended ∷ deregistered ∷ []
allowed_transitions suspended = active ∷ deregistered ∷ []
allowed_transitions deregistered = []
allowed_transitions (other s) = []

pub data Error : Type 0 where
  id_required slug_required slug_conflict end_date_required : Error
  not_found trial_needs_end_date : Error
  unknown_status same invalid_transition : Error
  database : Error

unfoldable pub can_transition : Status → Status → Result Error (Unit {0})
unfolding valid allowed_transitions
can_transition from to =
    if valid from
    then (if valid to
        then (if same_status from to
            then err same
            else (if any (same_status to) (allowed_transitions from)
                then ok tt
                else err invalid_transition))
        else err unknown_status)
    else err unknown_status

abbrev no_rows : List Status → Bool
no_rows [] = true
no_rows (_ ∷ _) = false

unfoldable pub terminal_status : Status → Bool
unfolding valid allowed_transitions
terminal_status s = valid s && no_rows (allowed_transitions s)
