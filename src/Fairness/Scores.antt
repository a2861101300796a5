-- ===== src/Fairness/Scores.antt =====
-- The commands of Redis on sorted sets that internal/fairness relies on, over lists with the newest score first.
use joysteed_maa_s.Base.{
  ℕ, ◌+◌, ◌≤◌, Bool, false, not, List, [], ◌∷◌, Option, some, none, Str, ◌==◌, ==_iff, ◌≡◌, refl,
  arith, leb, if◌then◌else◌,
}
use joysteed_maa_s.Fairness.{SortedSet, held, alive_at}

abbrev pub Scores : Type 0
Scores = List (Str × ℕ)

abbrev pub score : Scores → Str → Option ℕ
score [] k = none
score ((j, n) ∷ s) k = let rest = score s k in if j == k then some n else rest

abbrev pub distinct_keys : Scores → ℕ
distinct_keys [] = 0
distinct_keys ((j, n) ∷ s) =
    let rest = distinct_keys s in if leb 1 (held (score s j)) then rest else rest + 1

abbrev keep : (Str → Bool) → Scores → Scores
keep p [] = []
keep p ((j, n) ∷ s) = let rest = keep p s in if p j then (j, n) ∷ rest else rest

score-keep :
    (p : Str → Bool) (s : Scores) (k : Str) → score (keep p s) k ≡ (if p k then score s k else none)
score-keep p [] k = ground arith
score-keep p ((j, n) ∷ s) k = ground (arith, score-keep p s k, ==_iff j k)

pub keep-le : (p : Str → Bool) (s : Scores) → distinct_keys (keep p s) ≤ distinct_keys s
keep-le p [] = omega arith
keep-le p ((j, n) ∷ s) = ground (arith, keep-le p s, score-keep p s j)

abbrev lives : ℕ → Option ℕ → Bool
lives now none = false
lives now (some n) = not (leb n now)

pub remove-card :
    (m : Str) (s : Scores)
    → distinct_keys (keep (λ k. not (k == m)) s) + held (score s m) ≡ distinct_keys s
remove-card m [] = refl
remove-card m ((j, n) ∷ s) =
    ground (arith, remove-card m s, score-keep (λ k. not (k == m)) s j, ==_iff j m)

pub add-score :
    (n : ℕ) (m k : Str) (s : Scores) → score ((m, n) ∷ s) k ≡ (if m == k then some n else score s k)
add-score n m k s = refl

pub remove-score :
    (m k : Str) (s : Scores)
    → score (keep (λ k. not (k == m)) s) k ≡ (if m == k then none else score s k)
remove-score m k s = ground (arith, score-keep (λ k. not (k == m)) s k, ==_iff k m, ==_iff m k)

pub prune-score :
    (now : ℕ) (k : Str) (s : Scores)
    → score (keep (λ j. lives now (score s j)) s) k ≡ alive_at now (score s k)
prune-score now k s = ground (arith, score-keep (λ j. lives now (score s j)) s k)

pub add-card :
    (n : ℕ) (m : Str) (s : Scores)
    → distinct_keys ((m, n) ∷ s) + held (score s m) ≡ distinct_keys s + 1
add-card n m s = ground arith

abbrev pub scores : SortedSet
scores = record {
  Set = Scores;
  score = score;
  card = distinct_keys;
  add = λ n m s. (m, n) ∷ s;
  remove = λ m s. keep (λ k. not (k == m)) s;
  prune = λ now s. keep (λ j. lives now (score s j)) s;
  score-add = add-score;
  score-remove = remove-score;
  score-prune = prune-score;
  card-add = add-card;
  card-remove = remove-card;
  card-prune-le = λ now s. keep-le (λ j. lives now (score s j)) s;
}
