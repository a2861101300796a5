-- ===== src/Virtualkey/Rows.antt =====
-- internal/virtualkey: rows under distinct ids, and what an update of one of them leaves.
use joysteed_maa_s.Base.{
  Bool, true, false, List, [], ◌∷◌, some, Str, ◌==◌, ==_iff, any, any-find, find, find-true,
  update_where, All, ◌≡◌, refl, sym, ap, subst, ◌∙◌, arith, Bool-cases, inl, inr, if◌then◌else◌,
}
use joysteed_maa_s.Virtualkey.{Key, is_key}

-- The primary key.
abbrev pub IsKeyed : List Key → Type 0
IsKeyed [] = Unit
IsKeyed (k ∷ ks) = (any (λ n. n.id == k.id) ks ≡ false) × IsKeyed ks

untouched :
    (q : Key → Bool) (f : Key → Key) (x : Str) (ks : List Key)
    → ((k : Key) → q k ≡ true → (k.id == x) ≡ true)
    → any (λ n. n.id == x) ks ≡ false
    → update_where q f ks ≡ ks
untouched q f x [] only h = refl
untouched q f x (k ∷ ks) only h = ground (arith, only k, untouched q f x ks only)

pub of_id : (t id : Str) (k : Key) → is_key t id k ≡ true → (k.id == id) ≡ true
of_id t id k h = ground arith

pub elsewhere :
    (t id : Str) (k row : Key) (ks : List Key)
    → any (λ n. n.id == k.id) ks ≡ false
    → find (is_key t id) ks ≡ some row
    → (k.id == row.id) ≡ false
elsewhere t id k row ks fresh later = elim (Bool-cases (k.id == row.id)) [
  | inr n ↦ n
  | inl e ↦
      let row_id : row.id ≡ id =
        (==_iff row.id id).0 (of_id t id row (find-true (is_key t id) ks row later)) in
      let k_id : k.id ≡ id = (==_iff k.id row.id).0 e ∙ row_id in
      let present : any (λ n. n.id == id) ks ≡ true =
        any-find (is_key t id) (λ n. n.id == id) ks row (of_id t id) later in
      absurd (ground (arith, subst (λ x. any (λ n. n.id == x) ks ≡ false) k_id fresh))
]

-- Under distinct ids an update of the row that was found leaves all others.
pub All-update_row :
    (P : Key → Type 0) (t id : Str) (row : Key) (q : Key → Bool) (f : Key → Key) (ks : List Key)
    → IsKeyed ks
    → find (is_key t id) ks ≡ some row
    → ((k : Key) → q k ≡ true → (k.id == row.id) ≡ true)
    → (q row ≡ true → P (f row))
    → All P ks
    → All P (update_where q f ks)
All-update_row P t id row q f [] keyed found only new h = tt
All-update_row P t id row q f (k ∷ ks) (fresh, keyed) found only new (p, h) =
    elim (Bool-cases (is_key t id k)) [
      | inl y ↦
          let same : k ≡ row = ground arith in
          (
            head (q k) refl same,
            subst (All P)
                (sym (
                  untouched q f k.id ks
                    (λ n e. subst (λ r. (n.id == r.id) ≡ true) (sym same) (only n e)) fresh))
                h,
          )
      | inr n ↦
          let later : find (is_key t id) ks ≡ some row = ground arith in
          (
            other_head (q k) refl (elsewhere t id k row ks fresh later),
            All-update_row P t id row q f ks keyed later only new h,
          )
    ]
  where
    head : (b : Bool) → q k ≡ b → k ≡ row → P (if b then f k else k)
    head true e same = subst (λ r. P (f r)) (sym same) (new (subst (λ r. q r ≡ true) same e))
    head false e same = p

    other_head : (b : Bool) → q k ≡ b → (k.id == row.id) ≡ false → P (if b then f k else k)
    other_head true e away = absurd (ground (arith, only k e))
    other_head false e away = p

pub any-update_where :
    (q : Key → Bool) (f : Key → Key) (x : Str) (ks : List Key)
    → ((k : Key) → q k ≡ true → (f k).id ≡ k.id)
    → any (λ n. n.id == x) (update_where q f ks) ≡ any (λ n. n.id == x) ks
any-update_where q f x [] same = refl
any-update_where q f x (k ∷ ks) same = elim (Bool-cases (q k)) [
  | inl e ↦ ground (arith, ap (λ i. i == x) (same k e), any-update_where q f x ks same)
  | inr n ↦ ground (arith, any-update_where q f x ks same)
]

pub update_where-IsKeyed :
    (q : Key → Bool) (f : Key → Key) (ks : List Key)
    → ((k : Key) → q k ≡ true → (f k).id ≡ k.id)
    → IsKeyed ks
    → IsKeyed (update_where q f ks)
update_where-IsKeyed q f [] same h = tt
update_where-IsKeyed q f (k ∷ ks) same (fresh, h) = (
  subst (λ x. any (λ n. n.id == x) (update_where q f ks) ≡ false) (kept (q k) refl)
      (any-update_where q f k.id ks same ∙ fresh),
  update_where-IsKeyed q f ks same h,
)
  where
    kept : (b : Bool) → q k ≡ b → k.id ≡ (if b then f k else k).id
    kept true e = sym (same k e)
    kept false e = refl
