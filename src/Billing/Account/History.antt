-- ===== src/Billing/Account/History.antt =====
-- What holds of a ledger of internal/billing after any sequence of reservations, releases and
-- captures.
use joysteed_maa_s.Base.{
  ℕ, Bool, true, false, ◌||◌, List, [], ◌∷◌, some, Str, ◌==◌, any, find, ℤ, pos, pos_part, leb_ℤ,
  ltb_ℤ, ◌-ℤ◌, ◌≡◌, ◌≢◌, arith, All, All-update_where, Faults, subst, sym, any_weaken, find-true,
}
use joysteed_maa_s.Billing.Account.{
  Account, Ledger, Reservation, HoldStatus, reserved, released, captured, identified, owned_by,
  reserve, release, capture, transition_reservation,
}
use joysteed_maa_s.Billing.Account.Held.{held, IsCharge, settled, settled-Distinct}
use joysteed_maa_s.Billing.Account.Funds.{
  Funds, IsSound, opened, closed, reserve_cases, transition_cases, positive_amount, opened-Funds,
  closed-Funds,
}

settled-charges :
    (id : Str) (to : HoldStatus) (now : ℕ) (rs : List Reservation)
    → All IsCharge rs
    → All IsCharge (settled id to now rs)
unfolding settled
settled-charges id to now rs h = All-update_where IsCharge (identified id) _ rs (λ u _ c. c) h

opened-IsSound :
    (tenant key : Str) (amount : ℤ) (now : ℕ) (l : Ledger) (a : Account)
    → IsSound l
    → find (owned_by tenant) l.accounts ≡ some a
    → leb_ℤ amount (pos 0) ≡ false
    → ltb_ℤ (a.balance_micros -ℤ a.reserved_micros) amount ≡ false
    → any (λ q. (q.id == key) || (q.idempotency_key == key)) l.reservations ≡ false
    → IsSound (opened tenant key amount now a l)
opened-IsSound tenant key amount now l a v found positive enough fresh = record {
  funds =
      subst
        (λ n.
          (t : Str) (b : Account)
          → find (owned_by t) (opened tenant key n now a l).accounts ≡ some b
          → Funds b (held t (opened tenant key n now a l).reservations))
        (sym amounts)
        (opened-Funds tenant key (pos_part amount) now l a v found
          (subst (λ n. ltb_ℤ (a.balance_micros -ℤ a.reserved_micros) n ≡ false) amounts enough));
  charges = unfold opened in ((ground (arith, amounts), ground (arith, amounts)), v.charges);
  distinct =
      unfold opened in (any_weaken _ _ l.reservations (λ q k. ground arith) fresh, v.distinct);
}
  where
    amounts : amount ≡ pos (pos_part amount)
    amounts = positive_amount amount positive

reserve-IsSound :
    (tenant key : Str) (amount : ℤ) (now : ℕ) (l : Ledger) (fs : Faults)
    → IsSound l
    → IsSound (reserve tenant key amount now l fs).1
reserve-IsSound tenant key amount now l fs v =
    reserve_cases IsSound tenant key amount now l fs v (λ a found positive enough fresh.
      opened-IsSound tenant key amount now l a v found positive enough fresh)

settle-IsSound :
    (id : Str) (to : HoldStatus) (cap : Bool) (now : ℕ) (l : Ledger) (fs : Faults)
    → to ≢ reserved
    → IsSound l
    → IsSound (transition_reservation id reserved to cap now l fs).1
settle-IsSound id to cap now l fs away v =
    transition_cases IsSound id to cap now l fs v λ r a open_row found is_open _ _.
      let same : id ≡ r.id = ground (arith, find-true (identified id) l.reservations r open_row) in
      record {
        funds =
            closed-Funds to cap now r a l away v
              (subst (λ i. find (identified i) l.reservations ≡ some r) same open_row) found
              is_open;
        charges = unfold closed in settled-charges r.id to now l.reservations v.charges;
        distinct = unfold closed in settled-Distinct r.id to now l.reservations v.distinct;
      }

pub data Call : Type 0 where
  reserves : Str → Str → ℤ → Call
  releases captures : Str → Call

pub step : Ledger → ℕ → Faults → Call → Ledger
step l now fs (reserves tenant key amount) = (reserve tenant key amount now l fs).1
step l now fs (releases id) = (release id now l fs).1
step l now fs (captures id) = (capture id now l fs).1

pub run : Ledger → List (ℕ × Faults × Call) → Ledger
run l [] = l
run l ((now, fs, c) ∷ cs) = run (step l now fs c) cs

step-IsSound :
    (l : Ledger) (now : ℕ) (fs : Faults) (c : Call) → IsSound l → IsSound (step l now fs c)
unfolding step release capture
step-IsSound l now fs (reserves tenant key amount) v = reserve-IsSound tenant key amount now l fs v
step-IsSound l now fs (releases id) v = settle-IsSound id released false now l fs (λ e. cc) v
step-IsSound l now fs (captures id) v = settle-IsSound id captured true now l fs (λ e. cc) v

-- Whatever is reserved, released or captured, in whatever order and under whatever failures of the
-- database: each account's reserved sum is exactly what its open reservations hold, and its balance
-- covers it, without overflow.
pub run-IsFunded : (l : Ledger) (cs : List (ℕ × Faults × Call)) → IsSound l → IsSound (run l cs)
unfolding run
run-IsFunded l [] v = v
run-IsFunded l ((now, fs, c) ∷ cs) v = run-IsFunded (step l now fs c) cs (step-IsSound l now fs c v)
