-- ===== src/Quota/Examples.antt =====
-- internal/quota for one request that is sent twice.
use native.Mathlib.Decide.{ℕ_discrete}
use joysteed_maa_s.Base.{
  false, none, some, text, pos, ok, ◌≡◌, refl, arith, inl, str_discrete, trim_space, ◌∷◌, ◌++◌,
}
use joysteed_maa_s.Quota.{
  answers, Counter, Store, put, plus, key, charge_once, charge_once_script, ttl_millis, usage,
}
use joysteed_maa_s.Quota.Once.{charge_once_again}

abbrev counter : Counter
counter = record { prefix = text "q:"; digest = λ s. s }

abbrev empty : Store
empty k = none

abbrev spent : Store
spent =
    put (text "q:t" ++ (0 ∷ text "b:claim:r")) (some (record { value = pos 1; deadline = none }))
      (put (text "q:t" ++ (0 ∷ text "b")) (some (record { value = pos 30; deadline = none })) empty)

charge_once_again_example :
    (charge_once (λ n. n) counter (text "t") (text "b") (text "r") (pos 40) (pos 0) 9 answers spent
      ≡ (ok (pos 30, false), spent))
    × (usage counter (text "t") (text "b") 5 answers spent ≡ ok (plus (pos 0) (pos 30)))
charge_once_again_example =
    charge_once_again (λ n. n) counter (text "t") (text "b") (text "r") 30 40 (pos 0) (pos 0) 5 9
      empty spent (pos 30) (pos 0) (pos 30)
      (unfold charge_once charge_once_script key ttl_millis trim_space in refl) (omega arith)
      (inl (unfold ttl_millis in refl)) (unfold usage key trim_space in refl)
      (unfold usage key trim_space str_discrete ℕ_discrete in refl)
