-- ===== src/Virtualkey/Revoked.antt =====
-- internal/virtualkey: what holds from a revocation on.
use joysteed_maa_s.Base.{
  ℕ, Bool, true, false, List, [], ◌∷◌, some, Str, ◌==◌, ==_iff, trim_space, any, any-find, find,
  find-true, update_where, All, All-find, ok, Faults, bind_step, ◌≡◌, ◌≢◌, refl, sym, ap, subst,
  ◌∙◌, arith, Bool-cases, inl, inr, if◌then◌else◌,
}
use joysteed_maa_s.Configbus.Published.{current_of}
use joysteed_maa_s.Virtualkey.{
  Key, Status, revoking, revoked, unwanted, is_key, is_gone, Tables, Mutation, moved, lock_key,
  revoke_row, revoke_tx, reveal_tx,
}
use joysteed_maa_s.Virtualkey.Cipher.{Aead}
use joysteed_maa_s.Virtualkey.Projector.{Target}
use joysteed_maa_s.Virtualkey.Rows.{IsKeyed, of_id, elsewhere}
use joysteed_maa_s.Virtualkey.Invariant.{Matches, Fits, IsSound, move_key_ok}
use joysteed_maa_s.Virtualkey.Calls.{lock_key_ok}
use joysteed_maa_s.Virtualkey.History.{Call, run}
use joysteed_maa_s.Virtualkey.Gone.{NotWanted, AreGone, reveal_tx-AreGone}
use joysteed_maa_s.Virtualkey.Kept.{Lasts}
use joysteed_maa_s.Virtualkey.Returns.{IsOrder, run-Kept}

none_under : (id : Str) (ks : List Key) → any (λ n. n.id == id) ks ≡ false → All (NotWanted id) ks
none_under id [] h = tt
none_under id (k ∷ ks) h = ((λ e. absurd (ground arith)), none_under id ks (ground arith))

-- Under distinct ids the row that was found is the only one under its id.
only_row :
    (t id : Str) (row : Key) (ks : List Key)
    → IsKeyed ks
    → find (is_key t id) ks ≡ some row
    → row.desired_state ≡ unwanted
    → All (NotWanted id) ks
only_row t id row [] keyed found u = tt
only_row t id row (k ∷ ks) (fresh, keyed) found u = elim (Bool-cases (is_key t id k)) [
  | inl y ↦
      let same : k ≡ row = ground arith in
      let k_id : k.id ≡ id = (==_iff k.id id).0 (of_id t id k y) in
      (
        (λ _. ap (λ r. r.desired_state) same ∙ u),
        none_under id ks (subst (λ x. any (λ n. n.id == x) ks ≡ false) k_id fresh),
      )
  | inr n ↦
      let later : find (is_key t id) ks ≡ some row = ground arith in
      let row_id : row.id ≡ id =
        (==_iff row.id id).0 (of_id t id row (find-true (is_key t id) ks row later)) in
      let away : (k.id == id) ≡ false =
        subst (λ x. (k.id == x) ≡ false) row_id (elsewhere t id k row ks fresh later) in
      ((λ e. absurd (ground arith)), only_row t id row ks keyed later u)
]

-- A write of an unwanted row under an id leaves no other row under it.
written :
    (id : Str) (row new : Key) (ks : List Key)
    → row.id ≡ id
    → new.desired_state ≡ unwanted
    → All (NotWanted id) (update_where (λ k. k.id == row.id) (λ _. new) ks)
written id row new [] same u = tt
written id row new (k ∷ ks) same u = (head (k.id == row.id) refl, written id row new ks same u)
  where
    head : (b : Bool) → (k.id == row.id) ≡ b → NotWanted id (if b then new else k)
    head true e m = u
    head false e m = absurd (ground (arith, subst (λ x. (k.id == x) ≡ false) same e))

written_there :
    (id : Str) (row new : Key) (ks : List Key)
    → new.id ≡ id
    → any (λ k. k.id == id) ks ≡ true
    → any (λ k. k.id == id) (update_where (λ k. k.id == row.id) (λ _. new) ks) ≡ true
written_there id row new [] same h = h
written_there id row new (k ∷ ks) same h =
    ground (arith, (==_iff new.id id).1 same, written_there id row new ks same)

gone_unwanted :
    (row : Key) → is_gone row.status ≡ true → Matches row.status row → row.desired_state ≡ unwanted
gone_unwanted row h m = by_status row.status h m
  where
    by_status : (s : Status) → is_gone s ≡ true → Matches s row → row.desired_state ≡ unwanted
    by_status revoking h m = m.0
    by_status revoked h m = m.0
    by_status _ h m = absurd (ground arith)

revoke_tx-gone :
    (t id : Str) (now : ℕ) (s s' : Tables) (fs fs' : Faults) (x : Mutation)
    → IsSound s
    → revoke_tx t id now s fs ≡ ok (x, s', fs')
    → AreGone (trim_space id) s'.keys
unfolding revoke_tx
revoke_tx-gone t id now s s' fs fs' x (keyed, fits) h =
    bind_step (lock_key t id) (revoke_row t id now) s fs _ h λ row s₁ f e h.
      let i = trim_space id in
      let (found, same) = lock_key_ok t id row s s₁ fs f e in
      let row_id : row.id ≡ i =
        (==_iff row.id i).0 (of_id t i row (find-true (is_key t i) s.keys row found)) in
      let there : any (λ k. k.id == i) s.keys ≡ true =
        any-find (is_key t i) (λ k. k.id == i) s.keys row (λ k e. of_id t i k e) found in
      let (m, _) =
        All-find (Fits (λ u. current_of u s.outbox)) (is_key t i) s.keys row fits found in
      elim (Bool-cases (is_gone row.status)) [
        | inl y ↦
            let stays : s₁ ≡ s' = ground arith in
            subst (λ u. AreGone i u.keys) (sym same ∙ stays)
              (there, only_row t i row s.keys keyed found (gone_unwanted row y m))
        | inr n ↦
            let (c, o, _, _, saved) =
              move_key_ok t id row (revoking, unwanted) now s₁ s' f fs' x (ground arith) in
            subst (λ u. AreGone i u.keys) (sym saved)
              (subst
                (λ u. AreGone i (
                  update_where (λ k. k.id == row.id) (λ _. moved row (revoking, unwanted) c now)
                    u.keys))
                (sym same)
                (
                  written_there i row (moved row (revoking, unwanted) c now) s.keys row_id there,
                  written i row (moved row (revoking, unwanted) c now) s.keys row_id refl,
                ))
      ]

module _ (t : Target) (a : Aead) (digest : Str → Str) (by_id by_generation : List Key → List Key)
    (by_id-IsOrder : IsOrder by_id) (tenant id : Str) (now : ℕ) (s : Tables) (fs fs' : Faults)
    (x : Mutation) (restored : List Str) (p : t.Plane) where
  -- Once a key is revoked (the tables being sound before, and ORDER BY making up no row), it is revealed
  -- no more, after whatever calls and passes.
  pub revoke_tx-unrevealed :
      (s' : Tables) (cs : List (ℕ × Faults × Call)) (gs : Faults)
      (out : (Key × Str) × Tables × Faults)
      → IsSound s
      → revoke_tx tenant id now s fs ≡ ok (x, s', fs')
      → reveal_tx a tenant id
          (run t a digest by_id by_generation
            (record { tables = s'; restored = restored; plane = p })
            cs).tables
          gs
        ≢ ok out
  revoke_tx-unrevealed s' cs gs out sound h =
      let nothing : Lasts t (trim_space id) (λ _. Unit) = record {
        upsert-Lasts = λ x p n q. tt;
        delete-Lasts = λ u i p q. tt;
      } in
      reveal_tx-AreGone a tenant id
        (run t a digest by_id by_generation (record { tables = s'; restored = restored; plane = p })
          cs).tables
        gs out
        (run-Kept t (trim_space id) (λ _. Unit) nothing a by_id by_generation by_id-IsOrder digest _
          cs (revoke_tx-gone tenant id now s s' fs fs' x sound h) tt).0

  -- Once a key is revoked (the tables being sound before, and ORDER BY making up no row), what only an
  -- upsert of this key can end in the data plane, such as the key's absence, lasts through whatever calls
  -- and passes; `Lasts` says that it outlasts each deletion and the upserts of other keys.
  pub revoke_tx-lasts :
      (s' : Tables) (cs : List (ℕ × Faults × Call)) (Q : t.Plane → Type 0)
      → Lasts t (trim_space id) Q
      → IsSound s
      → revoke_tx tenant id now s fs ≡ ok (x, s', fs')
      → Q p
      → Q
          (run t a digest by_id by_generation
            (record { tables = s'; restored = restored; plane = p })
            cs).plane
  revoke_tx-lasts s' cs Q lasts sound h q =
      (run-Kept t (trim_space id) Q lasts a by_id by_generation by_id-IsOrder digest _ cs
        (revoke_tx-gone tenant id now s s' fs fs' x sound h) q).1
