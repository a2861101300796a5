-- ===== src/Virtualkey/Gone.antt =====
-- internal/virtualkey: a key that was revoked is not shown again, and does not come back to the data plane.
use joysteed_maa_s.Base.{
  ℕ, Bool, true, false, List, Str, ◌==◌, ==_iff, is_empty, trim_space, any, find, find-true,
  update_where, All, All-find, All-update_where, ok, Faults, bind_step, query_step, guard_step,
  ◌>>=◌, ◌≡◌, ◌≢◌, refl, sym, subst, ◌∙◌, arith, Bool-cases, ◌⊎◌, inl, inr,
}
use joysteed_maa_s.Virtualkey.{
  Key, Status, DesiredState, unwanted, revoking, is_key, is_gone, is_failed, Tables, key_not_found,
  tenant_required, database, Mutation, Draws, moved, new_key, lock_key, move_key, revoke_row,
  retry_row, create_tx, revoke_tx, retry_tx, reveal_row, reveal_tx, or_throw,
}
use joysteed_maa_s.Virtualkey.Rows.{any-update_where}
use joysteed_maa_s.Virtualkey.Cipher.{Aead}
use joysteed_maa_s.Virtualkey.Invariant.{move_key_ok}
use joysteed_maa_s.Virtualkey.Calls.{
  retried, unclashing, or_throw_step, lock_key_ok, issue_key_ok, create_tx_issue,
}

-- The rows under the id are there, and none is wanted.
abbrev pub NotWanted : Str → Key → Type 0
NotWanted id k = (k.id == id) ≡ true → k.desired_state ≡ unwanted

abbrev pub AreGone : Str → List Key → Type 0
AreGone id ks = (any (λ k. k.id == id) ks ≡ true) × All (NotWanted id) ks

any_updated :
    (q : Key → Bool) (f : Key → Key) (x : Str) (ks : List Key)
    → ((k : Key) → q k ≡ true → (f k).id ≡ k.id)
    → any (λ n. n.id == x) ks ≡ true
    → any (λ n. n.id == x) (update_where q f ks) ≡ true
any_updated q f x ks same h = any-update_where q f x ks same ∙ h

-- An update that keeps ids, and that leaves the row under the id unwanted.
pub update-AreGone :
    (id : Str) (q : Key → Bool) (f : Key → Key) (ks : List Key)
    → ((k : Key) → q k ≡ true → (f k).id ≡ k.id)
    → ((k : Key) → q k ≡ true → NotWanted id k → NotWanted id (f k))
    → AreGone id ks
    → AreGone id (update_where q f ks)
update-AreGone id q f ks same keeps (there, h) =
    (any_updated q f id ks same there, All-update_where (NotWanted id) q f ks keeps h)

move_key-AreGone :
    (id t i : Str) (row : Key) (to : Status × DesiredState) (now : ℕ) (s s' : Tables)
    (fs fs' : Faults) (x : Mutation)
    → NotWanted id row
    → (to.1 ≡ unwanted) ⊎ (to.1 ≡ row.desired_state)
    → AreGone id s.keys
    → move_key t i row to now s fs ≡ ok (x, s', fs')
    → AreGone id s'.keys
move_key-AreGone id t i row (st, desired) now s s' fs fs' x kept to gone h =
    let (c, o, f, e, same) = move_key_ok t i row (st, desired) now s s' fs fs' x h in
    subst (λ u. AreGone id u.keys) (sym same)
      (update-AreGone id (λ k. k.id == row.id) (λ _. moved row (st, desired) c now) s.keys
        (λ k e. sym ((==_iff k.id row.id).0 e))
        (λ k e _ m. elim to [ inl u ↦ u | inr same ↦ same ∙ kept m ]) gone)

-- A row that the lock reads is one of the rows.
locked :
    (id t i : Str) (row : Key) (s s' : Tables) (fs fs' : Faults)
    → AreGone id s.keys
    → lock_key t i s fs ≡ ok (row, s', fs')
    → NotWanted id row × AreGone id s'.keys
locked id t i row s s' fs fs' gone e =
    let (found, same) = lock_key_ok t i row s s' fs fs' e in
    (
      All-find (NotWanted id) (is_key t (trim_space i)) s.keys row gone.1 found,
      subst (λ u. AreGone id u.keys) (sym same) gone,
    )

pub revoke_tx-AreGone :
    (id t i : Str) (now : ℕ) (s s' : Tables) (fs fs' : Faults) (x : Mutation)
    → AreGone id s.keys
    → revoke_tx t i now s fs ≡ ok (x, s', fs')
    → AreGone id s'.keys
unfolding revoke_tx
revoke_tx-AreGone id t i now s s' fs fs' x gone h =
    bind_step (lock_key t i) (revoke_row t i now) s fs _ h λ row s₁ f e h.
      let (kept, gone₁) = locked id t i row s s₁ fs f gone e in
      elim (Bool-cases (is_gone row.status)) [
        | inl y ↦ let same : s₁ ≡ s' = ground arith in subst (λ u. AreGone id u.keys) same gone₁
        | inr n ↦
            move_key-AreGone id t i row (revoking, unwanted) now s₁ s' f fs' x kept (inl refl) gone₁
              (ground arith)
      ]

pub retry_tx-AreGone :
    (id t i : Str) (now : ℕ) (s s' : Tables) (fs fs' : Faults) (x : Mutation)
    → AreGone id s.keys
    → retry_tx t i now s fs ≡ ok (x, s', fs')
    → AreGone id s'.keys
unfolding retry_tx retried
retry_tx-AreGone id t i now s s' fs fs' x gone h =
    bind_step (lock_key t i) (retry_row t i now) s fs _ h λ row s₁ f e h.
      let (kept, gone₁) = locked id t i row s s₁ fs f gone e in
      elim (Bool-cases (is_failed row.status)) [
        | inr n ↦ absurd (ground arith)
        | inl y ↦
            move_key-AreGone id t i row (retried row) now s₁ s' f fs' x kept (inr refl) gone₁
              (ground arith)
      ]

clashing :
    (i id : Str) (ks : List Key)
    → (i == id) ≡ true
    → any (λ n. n.id == i) ks ≡ false
    → any (λ n. n.id == id) ks ≡ true
    → ⊥
clashing i id ks m free there =
    let none_left : any (λ n. n.id == id) ks ≡ false =
      subst (λ x. any (λ n. n.id == x) ks ≡ false) ((==_iff i id).0 m) free in
    ground arith

pub create_tx-AreGone :
    (id : Str) (a : Aead) (digest : Str → Str) (t name : Str) (drawn : Draws) (now : ℕ)
    (s s' : Tables) (fs fs' : Faults) (x : Mutation)
    → AreGone id s.keys
    → create_tx a digest t name drawn now s fs ≡ ok (x, s', fs')
    → AreGone id s'.keys
create_tx-AreGone id a digest t name drawn now s s' fs fs' x (there, h) e =
    let (f, issued) = create_tx_issue a digest t name drawn now s s' fs fs' x e in
    let (i, secret, sealed, c, o, f', _, free, same) =
      issue_key_ok a digest t (trim_space name) drawn now s s' f fs' x issued in
    let row = new_key digest t (trim_space name) i secret sealed c.generation now in
    subst (λ u. AreGone id u.keys) (sym same)
      (ground arith, (λ m. absurd (clashing i id s.keys m (unclashing row s.keys free) there), h))

unrevealed :
    (a : Aead) (row : Key) (s : Tables) (fs : Faults) (out : (Key × Str) × Tables × Faults)
    → row.desired_state ≡ unwanted
    → reveal_row a row s fs ≢ ok out
unrevealed a row s fs out u h = ground arith

-- Nothing reveals it.
pub reveal_tx-AreGone :
    (a : Aead) (t id : Str) (s : Tables) (fs : Faults) (out : (Key × Str) × Tables × Faults)
    → AreGone (trim_space id) s.keys
    → reveal_tx a t id s fs ≢ ok out
unfolding reveal_tx
reveal_tx-AreGone a t id s fs out gone h = guard_step (is_empty t) tenant_required _ s fs _ h λ _ h.
    query_step database (λ s. find (is_key t (trim_space id)) s.keys)
      (λ found. or_throw key_not_found found >>= reveal_row a) s fs _ h
      λ f h.
        or_throw_step key_not_found (find (is_key t (trim_space id)) s.keys) (reveal_row a) s f _ h
          λ row found h.
            let here = find-true (is_key t (trim_space id)) s.keys row found in
            unrevealed a row s f out
              (All-find (NotWanted (trim_space id)) (is_key t (trim_space id)) s.keys row gone.1
                found (ground arith))
              h
