-- ===== src/Billing/Sku.antt =====
-- internal/billing/billing.go: the price list, and which of its rows and of a plan's models a
-- requested model falls under.
pub mod Matching
pub mod Price
use joysteed_maa_s.Base.{
  ℕ, Bool, true, false, not, ◌&&◌, ◌||◌, List, [], ◌∷◌, ◌++◌, Option, none, some, Str, ◌==◌, text,
  cut, trim_space, is_empty, any, elem, find, contains_any, ℤ, pos, ◌+ℤ◌, ◌*ℤ◌, div_ℤ, ltb_ℤ, eqb_ℤ,
  Tx, Faults, Result, ok, err, query, throw, pure, ◌>>=◌, if◌then◌else◌,
}

pub record Sku : Type 0 where
  pub id : Str
  pub name : Str
  pub prompt_micros_per_1m : ℤ
  pub completion_micros_per_1m : ℤ
  pub legacy_prompt_per_1k : ℤ
  pub legacy_completion_per_1k : ℤ
  pub created_at : ℕ

pub data Error : Type 0 where
  invalid_usage usage_conflict insufficient_balance reservation_state : Error
  record_not_found database : Error

abbrev pub wildcard : Str
wildcard = text "*"

-- What stands behind the first slash, where there is text on both sides of it.
unfoldable pub bare_model : Str → Option Str
unfolding cut
bare_model model = elim (cut b'/' model) [
  | none ↦ none
  | some (provider, bare) ↦ if is_empty provider || is_empty bare then none else some bare
]

unfoldable pub sku_candidates : Str → List Str
unfolding bare_model trim_space
sku_candidates raw =
    let model = trim_space raw in
    let fallback : List Str = if model == wildcard then [] else wildcard ∷ [] in
    model ∷ elim (bare_model model) [ none ↦ fallback | some bare ↦ bare ∷ fallback ]

unfoldable pub model_id_matches : List Str → Str → Bool
unfolding sku_candidates
model_id_matches configured model =
    any (λ entry. any (λ candidate. entry == candidate) (sku_candidates model)) configured

pub record ModelPolicy : Type 0 where
  pub plan_id : Str
  pub plan_models : List Str
  pub priced_models : List Str

unfoldable pub model_allowed : ModelPolicy → Str → Bool
model_allowed p = model_id_matches p.plan_models

unfoldable pub pricing_configured : ModelPolicy → Str → Bool
pricing_configured p = model_id_matches p.priced_models

unfoldable pub allows : ModelPolicy → Str → Bool
unfolding model_allowed pricing_configured
allows p model = model_allowed p model && pricing_configured p model

unfoldable pub price : ℤ → ℤ → ℤ
price tokens rate =
    if eqb_ℤ tokens (pos 0) || eqb_ℤ rate (pos 0)
    then pos 0
    else div_ℤ (tokens *ℤ rate +ℤ pos 999999) 1000000

abbrev or_next : Option Sku → Tx Error (List Sku) Sku → Tx Error (List Sku) Sku
or_next none rest = rest
or_next (some s) rest = pure s

-- The loop over the candidates: the first that has a row, and the last miss as the error.
unfoldable pub first_sku : List Str → Tx Error (List Sku) Sku
first_sku [] = throw record_not_found
first_sku (c ∷ cs) =
    let rest = first_sku cs in (do row ← query database (find (λ s. s.id == c)); or_next row rest)

unfoldable pub price_usage : Str → ℤ → ℤ → Tx Error (List Sku) ℤ
unfolding first_sku sku_candidates price
price_usage model prompt completion =
    if is_empty (trim_space model) || (ltb_ℤ prompt (pos 0) || ltb_ℤ completion (pos 0))
    then throw invalid_usage
    else (do
      s ← first_sku (sku_candidates model)
      pure (price prompt s.prompt_micros_per_1m +ℤ price completion s.completion_micros_per_1m))

unfoldable pub valid_model_id : Str → Bool
unfolding bare_model
valid_model_id model = if model == wildcard then true else (elim (bare_model model) [
  | none ↦ false
  | some _ ↦ not (contains_any model (9 ∷ 10 ∷ 13 ∷ 32 ∷ []))
])
