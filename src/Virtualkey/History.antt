-- ===== src/Virtualkey/History.antt =====
-- internal/virtualkey: sequences of the store's calls and of passes, over one data plane.
use joysteed_maa_s.Base.{ℕ, List, [], ◌∷◌, Str, Faults, transaction, transaction_keeps}
use joysteed_maa_s.Configbus.Published.{current_of}
use joysteed_maa_s.Virtualkey.{Key, Tables, Draws, create_tx, revoke_tx, retry_tx}
use joysteed_maa_s.Virtualkey.Cipher.{Aead}
use joysteed_maa_s.Virtualkey.Projector.{Target, ProjectError, project_tenant}
use joysteed_maa_s.Virtualkey.Invariant.{IsSound}
use joysteed_maa_s.Virtualkey.Calls.{create_tx-IsSound, revoke_tx-IsSound, retry_tx-IsSound}
use joysteed_maa_s.Virtualkey.Passes.{project_tenant-AreSound}

pub data Call : Type 0 where
  creates : Str → Str → Draws → Call
  revokes : Str → Str → Call
  retries : Str → Str → Call
  passes : Str → ℕ → Call

-- What the calls and the passes share: the tables, the tenants that the process has restored, and the
-- data plane.
pub record World (t : Target) : Type 0 where
  pub tables : Tables
  pub restored : List Str
  pub plane : t.Plane

module _ (t : Target) (a : Aead) (digest : Str → Str)
    (by_id by_generation : List Key → List Key) where
  abbrev pub after_pass : World t → List ProjectError × List Str × List Key × t.Plane → World t
  after_pass w (es, restored, keys, p) = record {
    tables = record w.tables { keys = keys };
    restored = restored;
    plane = p;
  }

  abbrev pub step : ℕ → Faults → Call → World t → World t
  step now fs (creates tenant name drawn) w = record w {
    tables = (transaction (create_tx a digest tenant name drawn now) w.tables fs).1;
  }
  step now fs (revokes tenant id) w = record w {
    tables = (transaction (revoke_tx tenant id now) w.tables fs).1;
  }
  step now fs (retries tenant id) w = record w {
    tables = (transaction (retry_tx tenant id now) w.tables fs).1;
  }
  step now fs (passes tenant generation) w = after_pass w (
      project_tenant t a by_id by_generation tenant generation now w.restored w.tables.keys w.plane
        fs)

  unfoldable pub run : World t → List (ℕ × Faults × Call) → World t
  run w [] = w
  run w ((now, fs, c) ∷ cs) = run (step now fs c w) cs

  step-AreSound :
      (now : ℕ) (fs : Faults) (c : Call) (w : World t)
      → IsSound w.tables
      → IsSound (step now fs c w).tables
  step-AreSound now fs (creates tenant name drawn) w h =
      transaction_keeps IsSound (create_tx a digest tenant name drawn now) w.tables fs
        (λ x s' fs' e. create_tx-IsSound a digest tenant name drawn now w.tables s' fs fs' x h e) h
  step-AreSound now fs (revokes tenant id) w h =
      transaction_keeps IsSound (revoke_tx tenant id now) w.tables fs
        (λ x s' fs' e. revoke_tx-IsSound tenant id now w.tables s' fs fs' x h e) h
  step-AreSound now fs (retries tenant id) w h =
      transaction_keeps IsSound (retry_tx tenant id now) w.tables fs
        (λ x s' fs' e. retry_tx-IsSound tenant id now w.tables s' fs fs' x h e) h
  step-AreSound now fs (passes tenant generation) w h =
      project_tenant-AreSound t (λ u. current_of u w.tables.outbox) a tenant now by_id by_generation
        generation w.restored w.tables.keys w.plane fs h

  -- Any sequence of creations, revocations, retries and passes, whatever the data plane answers and
  -- whichever statements fail, keeps the keys' ids distinct and each row as its status says: a pending
  -- or active key is wanted, a revoking or revoked one is not, an active or revoked key is applied at its
  -- wanted generation and dated, every other one is behind it, and no key is ahead of its tenant's
  -- generation.
  pub run-AreSound :
      (w : World t) (cs : List (ℕ × Faults × Call)) → IsSound w.tables → IsSound (run w cs).tables
  unfolding run
  run-AreSound w [] h = h
  run-AreSound w ((now, fs, c) ∷ cs) h =
      run-AreSound (step now fs c w) cs (step-AreSound now fs c w h)
