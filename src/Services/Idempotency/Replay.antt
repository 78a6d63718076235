-- ===== src/Services/Idempotency/Replay.antt =====
-- A request is executed at most once while its record is alive.
use plan_it.Common.{
  ◌∷◌, ◌≡◌, arith, refl, some, none, ok, true, false, Error, not, ℕ, Option, List, raise_if-eq-ok,
  ◌==◌, sym, ok-injective, ltb, >>=-eq-ok, ◌||◌, or_raise, length, ap, if◌then◌else◌, err, ◌∙◌,
}
use plan_it.Common.Text.{Text, text_eq_iff}
use plan_it.Common.Time.{Instant}
use plan_it.Common.Int.{◌<ℤ◌, leb_ℤ, ℤ, ◌+ℤ◌, pos}
use plan_it.Services.Idempotency.{
  replay, find_record, keep_live, OperationResponse, IdempotencyKeyModel, IdempotencyResult,
  execute_idempotent, store_response, Session, commit, answer, Outcome, new_record,
}

module _ {Body : Type 0} where
  find_record-new :
      (user : ℕ) (scope : Text) (key : ℕ) (r : IdempotencyKeyModel Body)
      (rs : List (IdempotencyKeyModel Body))
      → r.user_id ≡ user
      → r.scope ≡ scope
      → r.key ≡ key
      → find_record user scope key (r ∷ rs) ≡ some r
  unfolding find_record
  find_record-new user scope key r rs a b c =
      let same = (text_eq_iff r.scope scope).1 b in ground arith

  -- A record that is found and has not expired is the one that answers.
  keep_live-some :
      (now : Instant) (user : ℕ) (scope : Text) (key : ℕ) (rs : List (IdempotencyKeyModel Body))
      (r : IdempotencyKeyModel Body)
      → now <ℤ r.expires_at
      → keep_live now user scope key rs (some r) ≡ (some r, rs)
  unfolding keep_live
  keep_live-some now user scope key rs r alive =
      let late : leb_ℤ r.expires_at now ≡ false = ground arith in rw late refl

  replay-replayed :
      (hash : ℕ) (row : IdempotencyKeyModel Body) {r : IdempotencyResult Body}
      → replay hash row ≡ ok r
      → r.replayed ≡ true
  unfolding replay
  replay-replayed hash row {r} h =
      let (_, h₁) = raise_if-eq-ok (not (row.request_hash == hash)) _ _ h in
      let (status, _, h₂) = >>=-eq-ok (or_raise row.response_status Error.runtime_error) _ h₁ in
      let (body, _, h₃) = >>=-eq-ok (or_raise row.response_json Error.runtime_error) _ h₂ in
      ap (λ (x : IdempotencyResult Body). x.replayed) (sym (ok-injective h₃))

-- The result of an operation that ran, and the record of it.
pub record IsStored {Body : Type 0} {Tables : Type 0}
    (record_of : OperationResponse Body → IdempotencyKeyModel Body) (r : IdempotencyResult Body)
    (t : Session Body Tables) : Type 0 where
  pub response : OperationResponse Body
  pub rest : List (IdempotencyKeyModel Body)
  pub answered :
      r ≡ record { status_code = response.status_code; body = response.body; replayed = false }
  pub recorded : t.keys ≡ record_of response ∷ rest
  pub closed : t.in_transaction ≡ false

module _ {Body : Type 0} {Request : Type 0} {Tables : Type 0} (hash_request : Request → ℕ)
    (check_commit : Tables → Option Text) where
  commit-IsStored :
      (record_of : OperationResponse Body → IdempotencyKeyModel Body) (broken : Option Text)
      (response : OperationResponse Body) (rs : List (IdempotencyKeyModel Body)) (tables : Tables)
      {r : IdempotencyResult Body} {t : Session Body Tables}
      → commit hash_request check_commit broken response (record_of response ∷ rs) tables
        ≡ ok (r, t)
      → IsStored record_of r t
  unfolding commit
  commit-IsStored record_of (some name) response rs tables h = cc
  commit-IsStored record_of none response rs tables {r} {t} h =
      let same = sym (ok-injective h) in
      record {
        response = response;
        rest = rs;
        answered = ap (λ (p : IdempotencyResult Body × Session Body Tables). p.0) same;
        recorded = ap (λ (p : IdempotencyResult Body × Session Body Tables). p.1.keys) same;
        closed = ap (λ (p : IdempotencyResult Body × Session Body Tables). p.1.in_transaction) same;
      }

  store_response-IsStored :
      (record_of : OperationResponse Body → IdempotencyKeyModel Body)
      (rs : List (IdempotencyKeyModel Body)) (outcome : Outcome Body Tables)
      {r : IdempotencyResult Body} {t : Session Body Tables}
      → store_response hash_request check_commit record_of rs outcome ≡ ok (r, t)
      → IsStored record_of r t
  unfolding store_response
  store_response-IsStored record_of rs (Outcome.raised code) h = cc
  store_response-IsStored record_of rs (Outcome.refused name) h = cc
  store_response-IsStored record_of rs (Outcome.returned response tables) {r} {t} h =
      let (_, done) =
        raise_if-eq-ok (ltb response.status_code 200 || ltb 599 response.status_code) _ _ h in
      commit-IsStored record_of (check_commit tables) response rs tables done

  -- An answer that was not replayed comes from the operation.
  answer-IsStored :
      (live : Option (IdempotencyKeyModel Body) × List (IdempotencyKeyModel Body)) (hash : ℕ)
      (record_of : OperationResponse Body → IdempotencyKeyModel Body)
      (operation : Tables → Outcome Body Tables) (tables : Tables) {r : IdempotencyResult Body}
      {t : Session Body Tables}
      → answer hash_request check_commit live hash record_of operation tables ≡ ok (r, t)
      → r.replayed ≡ false
      → IsStored record_of r t
  unfolding answer
  answer-IsStored (some row, rs) hash record_of operation tables {r} {t} h fresh =
      let (result, found, h₁) = >>=-eq-ok (replay hash row) _ h in
      let same =
        ap (λ (p : IdempotencyResult Body × Session Body Tables). p.0.replayed) (ok-injective h₁) in
      let old = replay-replayed hash row found in cc
  answer-IsStored (none, rs) hash record_of operation tables {r} {t} h fresh =
      store_response-IsStored record_of rs (operation tables) h

  execute_idempotent-IsStored :
      (now : Instant) (user : ℕ) (scope : Text) (key : ℕ) (request : Request)
      (operation : Tables → Outcome Body Tables) (ttl : ℤ) (s : Session Body Tables)
      {r : IdempotencyResult Body} {t : Session Body Tables}
      → execute_idempotent hash_request check_commit now user scope key request operation ttl s
        ≡ ok (r, t)
      → r.replayed ≡ false
      → ((length scope == 0 || ltb 80 (length scope)) ≡ false)
        × IsStored (new_record user scope key (hash_request request) (now +ℤ ttl)) r t
  unfolding execute_idempotent
  execute_idempotent-IsStored now user scope key request operation ttl s {r} {t} h fresh =
      let (scoped, h₁) = raise_if-eq-ok (length scope == 0 || ltb 80 (length scope)) _ _ h in
      let (_, h₂) = raise_if-eq-ok (leb_ℤ ttl (pos 0)) _ _ h₁ in
      let (_, h₃) = raise_if-eq-ok s.in_transaction _ _ h₂ in
      (scoped, answer-IsStored _ (hash_request request) _ operation s.tables h₃ fresh)

  -- What a stored record answers.
  answer-replays :
      (row : IdempotencyKeyModel Body) (response : OperationResponse Body) (hash : ℕ)
      (record_of : OperationResponse Body → IdempotencyKeyModel Body)
      (again : Tables → Outcome Body Tables) (t : Session Body Tables) (r : IdempotencyResult Body)
      → row.response_status ≡ some response.status_code
      → row.response_json ≡ some response.body
      → t.in_transaction ≡ false
      → r ≡ record { status_code = response.status_code; body = response.body; replayed = false }
      → answer hash_request check_commit (some row, t.keys) hash record_of again t.tables ≡ (
          if row.request_hash == hash
          then ok (record { status_code = r.status_code; body = r.body; replayed = true }, t)
          else err Error.idempotency_conflict)
  unfolding answer replay
  answer-replays row response hash record_of again t r status body closed answered =
      rw (status, body) (ground arith)

  execute_idempotent-passed :
      (now : Instant) (user : ℕ) (scope : Text) (key : ℕ) (request : Request)
      (operation : Tables → Outcome Body Tables) (ttl : ℤ) (s : Session Body Tables)
      → (length scope == 0 || ltb 80 (length scope)) ≡ false
      → leb_ℤ ttl (pos 0) ≡ false
      → s.in_transaction ≡ false
      → execute_idempotent hash_request check_commit now user scope key request operation ttl s
        ≡ answer hash_request check_commit
            (keep_live now user scope key s.keys (find_record user scope key s.keys))
            (hash_request request)
            (new_record user scope key (hash_request request) (now +ℤ ttl))
            operation
            s.tables
  unfolding execute_idempotent
  execute_idempotent-passed now user scope key request operation ttl s a b c = rw (a, b, c) refl

  -- After a call that ran its operation, every call with the same user, scope and key, before the
  -- record expires and with a positive time to live, runs no operation and changes nothing: the
  -- same request hash gets the stored response, marked as replayed, and any other is refused as a
  -- conflict.
  pub execute_idempotent-replays :
      (now : Instant) (user : ℕ) (scope : Text) (key : ℕ) (request : Request)
      (operation : Tables → Outcome Body Tables) (ttl : ℤ) (s : Session Body Tables)
      {r : IdempotencyResult Body} {t : Session Body Tables}
      → execute_idempotent hash_request check_commit now user scope key request operation ttl s
        ≡ ok (r, t)
      → r.replayed ≡ false
      → (later : Instant) (repeated : Request) (again : Tables → Outcome Body Tables) (span : ℤ)
      → later <ℤ now +ℤ ttl
      → pos 0 <ℤ span
      → execute_idempotent hash_request check_commit later user scope key repeated again span t ≡ (
          if hash_request request == hash_request repeated
          then ok (record { status_code = r.status_code; body = r.body; replayed = true }, t)
          else err Error.idempotency_conflict)
  execute_idempotent-replays now user scope key request operation ttl s {r} {t} h fresh later
        repeated again span early positive =
      let (scoped, stored) =
        execute_idempotent-IsStored now user scope key request operation ttl s h fresh in
      let row = new_record user scope key (hash_request request) (now +ℤ ttl) stored.response in
      let found : find_record user scope key t.keys ≡ some row =
        ap (find_record user scope key) stored.recorded
        ∙ find_record-new user scope key row stored.rest refl refl refl in
      let lives : leb_ℤ span (pos 0) ≡ false = ground arith in
      let live =
        ap (keep_live later user scope key t.keys) found
        ∙ keep_live-some later user scope key t.keys row early in
      let record_of = new_record user scope key (hash_request repeated) (later +ℤ span) in
      execute_idempotent-passed later user scope key repeated again span t scoped lives
        stored.closed
      ∙ (ap
            (λ l.
              answer hash_request check_commit l (hash_request repeated) record_of again t.tables)
            live
          ∙ answer-replays row stored.response (hash_request repeated) record_of again t r refl refl
              stored.closed stored.answered)
