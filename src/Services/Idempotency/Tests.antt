-- ===== src/Services/Idempotency/Tests.antt =====
-- One call and its retry, on a table that is a counter and bodies that are numbers.
use plan_it.Common.{◌∷◌, ◌≡◌, arith, refl, ◌+◌, some, none, [], ok, true, false, ℕ, Option}
use plan_it.Common.Text.{Text, text}
use plan_it.Common.Int.{◌+ℤ◌, pos}
use plan_it.Services.Idempotency.{
  Outcome, execute_idempotent, Session, find_record, keep_live, answer, store_response, commit,
}
use plan_it.Services.Idempotency.Replay.{execute_idempotent-replays}

abbrev hash : ℕ → ℕ
hash request = request + 5

abbrev fine : ℕ → Option Text
fine counter = none

abbrev count : ℕ → Outcome ℕ ℕ
count counter = Outcome.returned (record { status_code = 201; body = counter }) (counter + 1)

abbrev fresh : Session ℕ ℕ
fresh = record { keys = []; tables = 10; in_transaction = false }

abbrev counted : Session ℕ ℕ
counted = record {
  keys =
      record {
        user_id = 7;
        scope = text "debts.create";
        key = 3;
        request_hash = 6;
        response_status = some 201;
        response_json = some 10;
        expires_at = pos 150;
      }
      ∷ [];
  tables = 11;
  in_transaction = false;
}

execute_run :
    execute_idempotent hash fine (pos 100) 7 (text "debts.create") 3 1 count (pos 50) fresh
    ≡ ok (record { status_code = 201; body = 10; replayed = false }, counted)
unfolding execute_idempotent find_record keep_live answer store_response commit ◌+ℤ◌
execute_run = refl

execute_idempotent-replays_example :
    execute_idempotent hash fine (pos 120) 7 (text "debts.create") 3 1 count (pos 50) counted
    ≡ ok (record { status_code = 201; body = 10; replayed = true }, counted)
unfolding ◌+ℤ◌
execute_idempotent-replays_example =
    execute_idempotent-replays hash fine (pos 100) 7 (text "debts.create") 3 1 count (pos 50) fresh
      execute_run refl (pos 120) 1 count (pos 50) (omega arith) (omega arith)
