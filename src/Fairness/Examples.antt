-- ===== src/Fairness/Examples.antt =====
-- internal/fairness over sorted sets kept as lists, newest score first, and its theorems on them.
use native.Mathlib.Decide.{ℕ_discrete}
use joysteed_maa_s.Base.{
  ◌≤◌, ◌<◌, [], ◌∷◌, ◌++◌, some, none, Str, text, pos, ok, ◌≡◌, refl, str_discrete, trim_space,
}
use joysteed_maa_s.Fairness.{
  answers, Lease, LeaseValue, Store, Semaphore, tenant_key, provider_key, acquire, acquire_script,
}
use joysteed_maa_s.Fairness.Scores.{distinct_keys, scores}
use joysteed_maa_s.Fairness.Capacity.{acquire-le}

abbrev sem : Semaphore scores
sem = record { prefix = text "p:"; key_part = λ s. s }

abbrev empty : Store scores
empty = record { sets = λ k. []; leases = λ k. none }

abbrev lease : Lease
lease = record { token = text "a"; tenant_id = text "t"; provider = text "v"; expires_at = 12 }

abbrev value : LeaseValue
value = record { value = text "t" ++ (0 ∷ text "v"); deadline = 13 }

abbrev tk : Str
tk = tenant_key scores sem (text "t")

abbrev pk : Str
pk = provider_key scores sem (text "v")

-- The store after one lease of 2 ms from 10, at 11 on the server's clock.
abbrev holding : Store scores
holding =
    (acquire scores sem (text "t") (text "v") (pos 1) (pos 1) (pos 2000000) (some (text "a")) 10 11
      answers empty).1

taken :
    acquire scores sem
      (text "t")
      (text "v")
      (pos 1)
      (pos 1)
      (pos 2000000)
      (some (text "a"))
      10
      11
      answers
      empty
    ≡ (ok lease, holding)
unfolding acquire acquire_script trim_space str_discrete ℕ_discrete
taken = refl

acquire-le_example :
    (0 < 1 → distinct_keys (holding.sets tk) ≤ 1) × (0 < 1 → distinct_keys (holding.sets pk) ≤ 1)
acquire-le_example =
    acquire-le scores sem (text "t") (text "v") 1 1 (pos 2000000) (text "a") 10 11 empty holding
      lease taken

abbrev crowded : Store scores
crowded = record { sets = λ k. (text "a", 12) ∷ []; leases = λ k. some value }
