-- ===== src/Configbus/Examples.antt =====
-- The configuration bus at two tenants.
use joysteed_maa_s.Base.{◌≤◌, true, List, [], ◌∷◌, none, text, All, ◌≢◌}
use joysteed_maa_s.Configbus.{Generation, Change, Outbox, Fences, reconcile}
use joysteed_maa_s.Configbus.Fence.{notified, passed, run, run_monotone, reconcile_converges}

abbrev rows : List Generation
rows =
    record { tenant_id = text "t1"; generation = 3; updated_at = 1 }
    ∷ record { tenant_id = text "t2"; generation = 1; updated_at = 1 }
    ∷ []

abbrev at_start : Fences
at_start j = 0

run_monotone_example :
    0
    ≤ run at_start
        (([], notified (text "t1") 5)
          ∷ (true ∷ [], passed rows)
          ∷ ([], notified (text "t1") 4)
          ∷ [])
        (text "t1")
run_monotone_example =
    run_monotone at_start
      (([], notified (text "t1") 5) ∷ (true ∷ [], passed rows) ∷ ([], notified (text "t1") 4) ∷ [])
      (text "t1")

reconcile_converges_example :
    All
      (λ row. row.tenant_id ≢ [] → row.generation ≤ (reconcile rows at_start []).1 row.tenant_id)
      rows
reconcile_converges_example = reconcile_converges rows at_start

abbrev outbox : Outbox
outbox = record { generations = rows; changes = [] }

abbrev change : Change
change = record {
  tenant_id = text "t2";
  generation = 2;
  entity = text "routing";
  created_at = 9;
  published_at = none;
}

abbrev later : Outbox
later = record {
  generations =
      record { tenant_id = text "t1"; generation = 3; updated_at = 1 }
      ∷ record { tenant_id = text "t2"; generation = 2; updated_at = 9 }
      ∷ [];
  changes = change ∷ [];
}
