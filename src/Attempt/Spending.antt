-- ===== src/Attempt/Spending.antt =====
-- `add_usage` at the end of an attempt (worker/attempt.py).
use cloudagentperform.Base.{ℕ, ◌≡◌, refl, ◌∙◌, String, some, [], ◌∷◌, Dict}
use cloudagentperform.Models.{Task}
use cloudagentperform.Store.Table.{Store, Result, ok, update_tasks}
use cloudagentperform.Store.Rows.{Unique}
use cloudagentperform.Store.{get, add_usage, add_counts, any_row}
use cloudagentperform.Store.Claim.{get-update_self}
use cloudagentperform.Store.History.{uses, exec}
use cloudagentperform.Store.History.Distinct.{exec-Unique}
use cloudagentperform.Attempt.{spend}

-- What adding the usage leaves: the row of the same run, and distinct ids.
pub record Spent (tid : String) (row : Task) (p : Result (Unit {0}) × Store) (s : Store)
    : Type 0 where
  pub fine : p.0 ≡ ok tt
  pub usage : Dict ℕ
  pub now : String
  pub rows : get tid p.1 ≡ some (record row { usage = usage; updated_at = now })
  pub unique : Unique p.1.tasks
  pub events : p.1.events ≡ s.events

add_usage-Spent :
    (tid : String) (usage : Dict ℕ) (now : String) (s : Store) {row : Task}
    → Unique s.tasks
    → get tid s ≡ some row
    → Spent tid row (add_usage tid usage now s) s
unfolding add_usage exec get update_tasks
add_usage-Spent tid usage now s {row} u h = record {
  fine = rw (h, add_usage) refl;
  usage = add_counts row.usage usage;
  now = now;
  rows =
      rw (h, add_usage)
        (get-update_self tid any_row
            (λ t. record t { usage = add_counts row.usage usage; updated_at = now }) s (λ x. refl)
          ∙ (rw h refl));
  unique = exec-Unique (uses tid usage now) s u;
  events = rw (h, add_usage) refl;
}

pub spend-Spent :
    (tid : String) (usage : Dict ℕ) (now : String) (s : Store) {row : Task}
    → Unique s.tasks
    → get tid s ≡ some row
    → Spent tid row (spend tid usage now s) s
unfolding spend
spend-Spent tid [] now s {row} u h = record {
  fine = refl;
  usage = row.usage;
  now = row.updated_at;
  rows = h;
  unique = u;
  events = refl;
}
spend-Spent tid (x ∷ usage) now s {row} u h = add_usage-Spent tid (x ∷ usage) now s {row = row} u h
