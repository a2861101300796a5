-- ===== src/Virtualkey/Examples.antt =====
-- The theorems on internal/virtualkey at a tenant with two keys, over a data plane that lists its keys.
use native.Mathlib.Decide.{ℕ_discrete}
use joysteed_maa_s.Base.{
  ℕ, ◌≤◌, Bool, true, false, List, [], ◌∷◌, ◌++◌, Option, none, some, Str, text, ◌==◌, ==_iff, find,
  length, select, not, contains, Faults, ok, ◌≡◌, ◌≢◌, refl, arith, str_discrete, cut, trim_space,
}
use joysteed_maa_s.Virtualkey.{
  Key, Tables, Status, pending, active, revoking, wanted, unwanted, is_key, Mutation, revoke_tx,
  reveal_tx, entity,
}
use joysteed_maa_s.Configbus.{publish_tx}
use joysteed_maa_s.Virtualkey.Cipher.{
  Aead, IsAead, encrypt, decrypt, associated_data, decrypt-encrypt,
}
use joysteed_maa_s.Virtualkey.Sanitized.{sanitized_error, sanitized_error-safe}
use joysteed_maa_s.Virtualkey.Projector.{Target, Projection, restore_failed, project_tenant}
use joysteed_maa_s.Virtualkey.Invariant.{IsSound}
use joysteed_maa_s.Virtualkey.History.{
  Call, creates, revokes, retries, passes, World, run, run-AreSound,
}
use joysteed_maa_s.Virtualkey.Kept.{Lasts}
use joysteed_maa_s.Virtualkey.Returns.{IsOrder}
use joysteed_maa_s.Virtualkey.Revoked.{revoke_tx-unrevealed, revoke_tx-lasts}
use joysteed_maa_s.Virtualkey.Others.{Shows}
use joysteed_maa_s.Virtualkey.Settles.{settled, shown, project_tenant-settles}
use joysteed_maa_s.Virtualkey.Blocked.{project_tenant-blocked}

-- A cipher that writes the text as it is.
abbrev open_book : Aead
open_book = record {
  nonce_size = 1;
  seal = λ nonce plain ad. plain;
  open_sealed = λ nonce sealed ad. some sealed;
  encode = λ s. s;
  decode = some;
}

open_book-IsAead : IsAead open_book
open_book-IsAead = record { open-seal = λ nonce plain ad. refl; decode-encode = λ bytes. refl }

decrypt-encrypt_example :
    decrypt open_book (text "v1:" ++ (7 ∷ text "sk-bf-a")) (associated_data (text "t1") (text "k1"))
    ≡ ok (text "sk-bf-a")
decrypt-encrypt_example =
    decrypt-encrypt open_book (7 ∷ []) (text "sk-bf-a") (associated_data (text "t1") (text "k1"))
      (text "v1:" ++ (7 ∷ text "sk-bf-a")) open_book-IsAead refl (unfold encrypt in refl)

sanitized_error-safe_example :
    (contains (sanitized_error (text "bad key sk-bf-a!") (text "sk-bf-a")) (text "sk-bf-a") ≡ false)
    × (length (sanitized_error (text "bad key sk-bf-a!") (text "sk-bf-a")) ≤ 500)
sanitized_error-safe_example =
    sanitized_error-safe (text "bad key sk-bf-a!") (text "sk-bf-a") (refl, omega arith)

-- A data plane that takes everything.
abbrev shelf : Target
shelf = record {
  Plane = List Projection;
  upsert = λ x p. (none, x ∷ p);
  delete = λ u i p. (none, select (λ x. not (x.id == i)) p);
}

abbrev view : Str → List Projection → Option Projection
view id = find (λ x. x.id == id)

view-deleted :
    (id i : Str) (p : List Projection)
    → i ≢ id
    → view id (select (λ x. not (x.id == i)) p) ≡ view id p
view-deleted id i [] away = refl
view-deleted id i (x ∷ p) away =
    ground (arith, view-deleted id i p away, ==_iff x.id i, ==_iff x.id id)

view-gone : (id : Str) (p : List Projection) → view id (select (λ x. not (x.id == id)) p) ≡ none
view-gone id [] = refl
view-gone id (x ∷ p) = ground (arith, view-gone id p)

shelf-Shows : (id : Str) → Shows shelf id (view id)
shelf-Shows id = record {
  upsert-Shows = λ x p same. (refl, ground (arith, ==_iff x.id id));
  delete-Shows = λ u p. (refl, view-gone id p);
  upsert-Other = λ x p away. ground (arith, ==_iff x.id id);
  delete-Other = λ u i p away. view-deleted id i p away;
}

view-absent :
    (id : Str) (q : Projection → Bool) (p : List Projection)
    → view id p ≡ none
    → view id (select q p) ≡ none
view-absent id q [] absent = refl
view-absent id q (x ∷ p) absent = ground (arith, view-absent id q p)

shelf-Lasts : (id : Str) → Lasts shelf id (λ p. view id p ≡ none)
shelf-Lasts id = record {
  upsert-Lasts = λ x p away absent. ground (arith, ==_iff x.id id);
  delete-Lasts = λ u i p absent. view-absent id (λ x. not (x.id == i)) p absent;
}

abbrev row : Str → Status → ℕ → ℕ → Key
row id status desired applied = record {
  id = id;
  tenant_id = text "t1";
  name = id;
  secret_ciphertext = text "v1:" ++ (7 ∷ text "sk-bf-a");
  secret_fingerprint = [];
  status = status;
  desired_state = wanted;
  desired_generation = desired;
  applied_generation = applied;
  last_error = [];
  activated_at = some 1;
  revoked_at = none;
  created_at = 1;
  updated_at = 1;
}

abbrev tables : Tables
tables = record {
  keys = row (text "k1") active 1 1 ∷ row (text "k2") pending 2 0 ∷ [];
  outbox = record {
    generations = record { tenant_id = text "t1"; generation = 2; updated_at = 1 } ∷ [];
    changes = [];
  };
  tenants = [];
}

tables-IsSound : IsSound tables
unfolding str_discrete ℕ_discrete
tables-IsSound = (
  (refl, (refl, tt)),
  (((refl, refl, λ e. cc), omega arith), (((refl, omega arith), omega arith), tt)),
)

abbrev calls : List (ℕ × Faults × Call)
calls =
    (5, [], passes (text "t1") 2)
    ∷ (6, true ∷ [], revokes (text "t1") (text "k2"))
    ∷ (7, [], retries (text "t1") (text "k1"))
    ∷ (
      8,
      [],
      creates (text "t1") (text "new")
          (record { id = some (text "k1"); secret = some (text "s"); nonce = some (7 ∷ []) }),
    )
    ∷ (9, [], passes (text "t1") 3)
    ∷ []

abbrev start : World shelf
start = record { tables = tables; restored = []; plane = [] }

run-AreSound_example :
    IsSound (run shelf open_book (λ s. s) (λ ks. ks) (λ ks. ks) start calls).tables
run-AreSound_example =
    run-AreSound shelf open_book (λ s. s) (λ ks. ks) (λ ks. ks) start calls tables-IsSound

abbrev revoked_tables : Tables
revoked_tables = record {
  keys =
      record (row (text "k1") revoking 3 1) { desired_state = unwanted; updated_at = 4 }
      ∷ row (text "k2") pending 2 0
      ∷ [];
  outbox = record {
    generations = record { tenant_id = text "t1"; generation = 3; updated_at = 4 } ∷ [];
    changes =
        record {
          tenant_id = text "t1";
          generation = 3;
          entity = text "virtual_key:k1";
          created_at = 4;
          published_at = none;
        }
        ∷ [];
  };
  tenants = [];
}

abbrev answer : Mutation
answer = record {
  key = record (row (text "k1") revoking 3 1) { desired_state = unwanted; updated_at = 4 };
  before = some (row (text "k1") active 1 1);
  secret = [];
  change = some (record {
    tenant_id = text "t1";
    generation = 3;
    entity = text "virtual_key:k1";
    created_at = 4;
    published_at = none;
  });
}

revokes_k1 : revoke_tx (text "t1") (text "k1") 4 tables [] ≡ ok (answer, revoked_tables, [])
unfolding revoke_tx entity trim_space str_discrete ℕ_discrete publish_tx
revokes_k1 = refl

kept-IsOrder : IsOrder (λ ks. ks)
kept-IsOrder P ks h = h

revoke_tx-unrevealed_example :
    reveal_tx open_book
      (text "t1")
      (text "k1")
      (run shelf open_book
        (λ s. s)
        (λ ks. ks)
        (λ ks. ks)
        (record { tables = revoked_tables; restored = []; plane = [] })
        calls).tables
      []
    ≢ ok ((row (text "k1") active 1 1, text "sk-bf-a"), revoked_tables, [])
revoke_tx-unrevealed_example =
    revoke_tx-unrevealed shelf open_book (λ s. s) (λ ks. ks) (λ ks. ks) kept-IsOrder (text "t1")
      (text "k1") 4 tables [] [] answer [] [] revoked_tables calls []
      ((row (text "k1") active 1 1, text "sk-bf-a"), revoked_tables, []) tables-IsSound revokes_k1

revoke_tx-lasts_example :
    view
      (trim_space (text "k1"))
      (run shelf open_book
        (λ s. s)
        (λ ks. ks)
        (λ ks. ks)
        (record { tables = revoked_tables; restored = []; plane = [] })
        calls).plane
    ≡ none
revoke_tx-lasts_example =
    revoke_tx-lasts shelf open_book (λ s. s) (λ ks. ks) (λ ks. ks) kept-IsOrder (text "t1")
      (text "k1") 4 tables [] [] answer [] [] revoked_tables calls
      (λ p. view (trim_space (text "k1")) p ≡ none) (shelf-Lasts (trim_space (text "k1")))
      tables-IsSound revokes_k1 refl

project_tenant-settles_example :
    (find
        (is_key (text "t1") (text "k2"))
        (project_tenant shelf open_book
          (λ ks. ks)
          (λ ks. ks)
          (text "t1")
          2
          9
          (text "t1" ∷ [])
          tables.keys
          []
          []).2
      ≡ some (settled wanted 9 (row (text "k2") pending 2 0)))
    × (view
          (text "k2")
          (project_tenant shelf open_book
            (λ ks. ks)
            (λ ks. ks)
            (text "t1")
            2
            9
            (text "t1" ∷ [])
            tables.keys
            []
            []).3
        ≡ shown wanted (row (text "k2") pending 2 0) (text "sk-bf-a"))
project_tenant-settles_example =
    project_tenant-settles shelf open_book (λ ks. ks) (λ ks. ks) (text "t1") (text "k2") 2 9
      (text "t1" ∷ []) tables.keys [] (row (text "k2") pending 2 0) (text "sk-bf-a")
      (view (text "k2")) (shelf-Shows (text "k2")) (λ xs h. h) (λ e. ground arith) (omega arith)
      (unfold str_discrete ℕ_discrete in refl) (unfold str_discrete ℕ_discrete in refl)
      (omega arith) (unfold decrypt cut str_discrete ℕ_discrete in refl)

-- A row that was written under another version of the cipher.
abbrev old_rows : List Key
old_rows =
    record (row (text "k1") active 1 1) { secret_ciphertext = text "v0:x" }
    ∷ record (row (text "k2") revoking 2 1) { desired_state = unwanted }
    ∷ []

project_tenant-blocked_example :
    ((project_tenant shelf open_book (λ ks. ks) (λ ks. ks) (text "t1") 2 9 [] old_rows [] []).0
      ≡ restore_failed ∷ [])
    × ((project_tenant shelf open_book (λ ks. ks) (λ ks. ks) (text "t1") 2 9 [] old_rows [] []).1
        ≡ [])
    × ((project_tenant shelf open_book (λ ks. ks) (λ ks. ks) (text "t1") 2 9 [] old_rows [] []).2
        ≡ old_rows)
project_tenant-blocked_example =
    project_tenant-blocked shelf open_book (λ ks. ks) (λ ks. ks) (text "t1") 2 9 [] old_rows []
      (λ e. ground arith) (omega arith) refl (unfold decrypt cut str_discrete ℕ_discrete in refl)
