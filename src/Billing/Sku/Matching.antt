-- ===== src/Billing/Sku/Matching.antt =====
-- Which entries of a list of models a request falls under (`skuCandidates`, `modelIDMatches`).
use joysteed_maa_s.Base.{
  ℕ, Bool, true, false, ◌||◌, List, [], ◌∷◌, Option, none, some, Str, ◌==◌, trim_space, any, elem,
  any_swap, any-map, map, find, any-find-some, any-find-none, any-of_find, Option-cases, ◌≡◌, refl,
  arith, ok, err, inl, inr, ℤ, pos, ◌+ℤ◌, is_empty,
}
use joysteed_maa_s.Billing.Sku.{
  Sku, record_not_found, bare_model, wildcard, sku_candidates, model_id_matches, first_sku,
  price_usage, price,
}

-- The bare name of a provider's model, where the text has one, stands in the list.
abbrev pub bare_in : Option Str → List Str → Bool
bare_in none configured = false
bare_in (some bare) configured = elem bare configured

pub candidates_in :
    (configured : List Str) (model : Str)
    → model_id_matches configured model ≡ any (λ c. elem c configured) (sku_candidates model)
unfolding model_id_matches
candidates_in configured model =
    any_swap (λ entry candidate. entry == candidate) configured (sku_candidates model)

-- A model is covered exactly when the list holds its trimmed name, its name behind the provider, or
-- the wildcard.
pub model_id_matches_lem :
    (configured : List Str) (model : Str)
    → model_id_matches configured model ≡ (
        elem (trim_space model) configured
        || (bare_in (bare_model (trim_space model)) configured || elem wildcard configured))
model_id_matches_lem configured model =
    rw (candidates_in configured model) (unfold sku_candidates in ground arith)

find-elem :
    (c : Str) (skus : List Sku)
    → any (λ s. s.id == c) skus ≡ true
    → (s : Sku) × (find (λ s. s.id == c) skus ≡ some s)
find-elem c skus h = any-find-some (λ s. s.id == c) skus h

first_sku-found :
    (cs : List Str) (skus : List Sku)
    → any (λ c. elem c (map (λ s. s.id) skus)) cs ≡ true
    → (s : Sku) × (first_sku cs skus [] ≡ ok (s, skus, []))
unfolding first_sku
first_sku-found [] skus h = absurd (ground arith)
first_sku-found (c ∷ cs) skus h = elim (Option-cases (find (λ s. s.id == c) skus)) [
  | inr (s, e) ↦ (s, rw e)
  | inl e ↦
      let (s, r) = first_sku-found cs skus (
        ground
          (arith, any-map (λ b. b == c) (λ s. s.id) skus, any-find-none (λ s. s.id == c) skus)) in
      (s, rw e r)
]

first_sku-missing :
    (cs : List Str) (skus : List Sku)
    → any (λ c. elem c (map (λ s. s.id) skus)) cs ≡ false
    → first_sku cs skus [] ≡ err record_not_found
unfolding first_sku
first_sku-missing [] skus h = refl
first_sku-missing (c ∷ cs) skus h = ground (
  arith,
  any-map (λ b. b == c) (λ s. s.id) skus,
  any-of_find (λ s. s.id == c) skus,
  first_sku-missing cs skus,
)

-- Where no statement fails, a request can be priced exactly when the allowance check calls its model
-- priced: the check and the charge agree on which models have a price.
pub price_usage-priced :
    (model : Str) (prompt completion : ℕ) (skus : List Sku)
    → is_empty (trim_space model) ≡ false
    → ((model_id_matches (map (λ s. s.id) skus) model ≡ true)
        → (cost : ℤ) × (price_usage model (pos prompt) (pos completion) skus []
            ≡ ok (cost, skus, [])))
      × ((model_id_matches (map (λ s. s.id) skus) model ≡ false)
          → price_usage model (pos prompt) (pos completion) skus [] ≡ err record_not_found)
unfolding price_usage
price_usage-priced model prompt completion skus named = (priced, unpriced)
  where
    priced :
        model_id_matches (map (λ s. s.id) skus) model ≡ true
        → (cost : ℤ) × (price_usage model (pos prompt) (pos completion) skus []
            ≡ ok (cost, skus, []))
    priced h =
        let (s, found) =
          first_sku-found (sku_candidates model) skus
            (rw (candidates_in (map (λ s. s.id) skus) model) at h) in
        (
          price (pos prompt) s.prompt_micros_per_1m
              +ℤ price (pos completion) s.completion_micros_per_1m,
          ground arith,
        )

    unpriced :
        model_id_matches (map (λ s. s.id) skus) model ≡ false
        → price_usage model (pos prompt) (pos completion) skus [] ≡ err record_not_found
    unpriced h = ground (
      arith,
      candidates_in (map (λ s. s.id) skus) model,
      first_sku-missing (sku_candidates model) skus,
    )
