-- ===== src/Member/Roles.antt =====
-- internal/member/member.go: the four system roles of a tenant and the ids they are stored under.
use native.Mathlib.Decide.{ℕ_discrete}
use joysteed_maa_s.Base.{
  ℕ, Bool, true, false, List, [], ◌∷◌, ◌++◌, Str, text, ◌==◌, str_discrete, last, eqb,
  if◌then◌else◌, ◌≡◌, refl, arith, ◌∙◌, ap, sym, length, length-append, drop,
}

-- `RoleName` is a string in Go: `other` is any text but the four constants.
pub data RoleName : Type 0 where
  owner admin developer viewer : RoleName
  other : Str → RoleName

unfoldable pub valid_role : RoleName → Bool
valid_role owner = true
valid_role admin = true
valid_role developer = true
valid_role viewer = true
valid_role (other _) = false

abbrev pub role_text : RoleName → Str
role_text owner = text "owner"
role_text admin = text "admin"
role_text developer = text "developer"
role_text viewer = text "viewer"
role_text (other s) = s

-- `RoleName(s)`.
unfoldable pub role_name : Str → RoleName
role_name s =
    if s == text "owner"
    then owner
    else (if s == text "admin"
        then admin
        else (if s == text "developer"
            then developer
            else (if s == text "viewer" then viewer else other s)))

unfoldable pub role_id : Str → RoleName → Str
role_id tenant role = text "tenant:" ++ (tenant ++ (text ":" ++ role_text role))

-- `strings.Split` by one character: the first part, and the parts behind it.
unfoldable pub split_on : ℕ → Str → Str × List Str
split_on sep [] = ([], [])
split_on sep (c ∷ s) =
    let (part, parts) = split_on sep s in
    if eqb c sep then ([], part ∷ parts) else (c ∷ part, parts)

abbrev pub last_part : Str → Str
last_part s = let (part, parts) = split_on 58 s in last part parts

-- The name at the end of a binding's role id.
unfoldable pub role_of_id : Str → RoleName
role_of_id id = role_name (last_part id)

abbrev pub tenant_role_ids : Str → List Str
tenant_role_ids tenant =
    role_id tenant owner
    ∷ role_id tenant admin
    ∷ role_id tenant developer
    ∷ role_id tenant viewer
    ∷ []

behind :
    (sep : ℕ) (s t x : Str)
    → last x (split_on sep (s ++ sep ∷ t)).1 ≡ last (split_on sep t).0 (split_on sep t).1
unfolding split_on
behind sep [] t x = ground arith
behind sep (c ∷ s) t x =
    ground (arith, behind sep s t x, behind sep s t (split_on sep (s ++ sep ∷ t)).0)

last_part_behind : (s t : Str) → last_part (s ++ 58 ∷ t) ≡ last_part t
unfolding split_on
last_part_behind [] t = ground arith
last_part_behind (c ∷ s) t = ground (
  arith,
  behind 58 s t (c ∷ (split_on 58 (s ++ 58 ∷ t)).0),
  behind 58 s t (split_on 58 (s ++ 58 ∷ t)).0,
)

last_part-role_id :
    (tenant : Str) (role : RoleName) → last_part (role_id tenant role) ≡ last_part (role_text role)
unfolding role_id
last_part-role_id tenant role =
    last_part_behind (text "tenant") (tenant ++ (text ":" ++ role_text role))
    ∙ last_part_behind tenant (role_text role)

role_name-role_text :
    (role : RoleName) → valid_role role ≡ true → role_of_id (role_text role) ≡ role
unfolding role_of_id role_name split_on str_discrete ℕ_discrete valid_role
role_name-role_text owner h = refl
role_name-role_text admin h = refl
role_name-role_text developer h = refl
role_name-role_text viewer h = refl
role_name-role_text (other s) h = absurd (ground arith)

-- The id under which one of the four roles is stored says which role it is, whatever the tenant's name.
pub role_of_id-role_id :
    (tenant : Str) (role : RoleName)
    → valid_role role ≡ true
    → role_of_id (role_id tenant role) ≡ role
unfolding role_of_id
role_of_id-role_id tenant role h =
    ap role_name (last_part-role_id tenant role) ∙ role_name-role_text role h

append_cancel : (s t u : Str) → s ++ u ≡ t ++ u → s ≡ t
append_cancel [] [] u h = refl
append_cancel [] (d ∷ t) u h = absurd (omega (arith, length-append t u, ap length h))
append_cancel (c ∷ s) [] u h = absurd (omega (arith, length-append s u, ap length h))
append_cancel (c ∷ s) (d ∷ t) u h = ground (arith, append_cancel s t u)

pub role_id_injective :
    (t u : Str) (r q : RoleName)
    → valid_role r ≡ true
    → valid_role q ≡ true
    → role_id t r ≡ role_id u q
    → (t ≡ u) × (r ≡ q)
unfolding role_id
role_id_injective t u r q h k e =
    let same : r ≡ q =
      sym (role_of_id-role_id t r h) ∙ ap role_of_id e ∙ role_of_id-role_id u q k in
    let parted : t ++ (text ":" ++ role_text q) ≡ u ++ (text ":" ++ role_text q) =
      ap (drop 7) (ap (role_id t) (sym same) ∙ e) in
    (append_cancel t u _ parted, same)
