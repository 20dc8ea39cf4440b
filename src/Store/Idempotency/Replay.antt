-- ===== src/Store/Idempotency/Replay.antt =====
-- internal/store/idempotency.go, `writeIdempotent`: a request that is repeated.
use clearinghouse_batteries.Base.{
  String, ◌≡◌, refl, ap, ◌∙◌, sym, subst, true, false, ◌==◌, Option, none, some, [], ◌∷◌, arith,
  eq_refl,
}
use clearinghouse_batteries.Base.Int.{ℤ, pos}
use clearinghouse_batteries.Base.Lists.{find, find-append}
use clearinghouse_batteries.Base.Exec.{Result, ok, err, pure, lift, ◌>>=◌, ◌>>◌}
use clearinghouse_batteries.Base.Exec.Keeps.{
  Keeps, Ensures, Returns, Ensures-if, Ensures-pure, Ensures-raise, Ensures-bind, Ensures-after,
}
use clearinghouse_batteries.Db.{Db, World, IdempotencyRow}
use clearinghouse_batteries.Db.Tx.{Tx, query, write, finish}
use clearinghouse_batteries.Db.Tx.Rules.{OfDb, tx_rules, Ensures-execute, Keeps-now}
use clearinghouse_batteries.Store.Summary.Frame.{change_inventory-Keeps}
use clearinghouse_batteries.Store.Ledger.{balance_currency}
use clearinghouse_batteries.Store.Ledger.Others.{transfer_currency-Keeps}
use clearinghouse_batteries.Store.Manage.Grants.{Create, prepare_create}
use clearinghouse_batteries.Store.Manage.Allocations.{create_allocation}
use clearinghouse_batteries.Store.Idempotency.{
  Fields, Idempotency, ManagementResponse, is_request, validate_idempotency_key, scope_grant,
  execute_request, replay, store_response, run_or_replay, keyed_body, write_idempotent,
  create_allocation_idempotent,
}

balance_currency-Frame :
    (P : Db → Type 0) (a o c : String) → Keeps (OfDb P) (balance_currency a o c)
unfolding balance_currency
balance_currency-Frame P a o c = search tx_rules

module _ (grant : String) (request : Idempotency) where
  abbrev pub stored : Db → Option IdempotencyRow
  stored d = find (is_request grant request.key) d.idempotency

  -- The key is not used in the namespace of the grant.
  abbrev pub Unused : Db → Type 0
  Unused d = stored d ≡ none

  -- The response that a request with the same key and fingerprint is given.
  pub record Stored (r : ManagementResponse) (d : Db) : Type 0 where
    pub row : IdempotencyRow
    pub found : stored d ≡ some row
    pub same : row.fingerprint == request.fingerprint ≡ true
    pub status : row.response_status ≡ r.status
    pub body : row.response_json ≡ r.body

  store_response-Stored :
      (r : ManagementResponse)
      → Ensures (OfDb Unused) (store_response grant request r) (λ _. OfDb (Stored r))
  unfolding store_response
  store_response-Stored r = Ensures-after _ _ Keeps-now λ at. Ensures-execute _ (λ d h. record {
    row = record {
      grant_id = grant;
      idempotency_key = request.key;
      fingerprint = request.fingerprint;
      response_status = r.status;
      response_json = r.body;
      created_at_ms = at;
    };
    found =
        find-append (is_request grant request.key) _ d.idempotency h
          (ground (arith, eq_refl grant, eq_refl request.key));
    same = eq_refl request.fingerprint;
    status = refl;
    body = refl;
  })

  replay-Stored :
      (row : IdempotencyRow)
      → Ensures (OfDb (λ d. stored d ≡ some row)) (replay request row) (λ r. OfDb (Stored r))
  unfolding replay
  replay-Stored row =
      Ensures-if (row.fingerprint == request.fingerprint) _ _
        (λ same. Ensures-pure _ (λ w h. record {
          holds = record { row = row; found = h.holds; same = same; status = refl; body = refl };
        }))
        (λ other. Ensures-raise _)

  module _ (encode : Fields → String) (code : ℤ) (mutate : Tx Fields)
      (fair : Keeps (OfDb Unused) mutate) where
    run-Stored :
        (o : Option IdempotencyRow)
        → Ensures
            (OfDb (λ d. stored d ≡ o))
            (run_or_replay encode code grant request mutate o)
            (λ r. OfDb (Stored r))
    unfolding execute_request
    run-Stored (some row) = replay-Stored row
    run-Stored none =
        Ensures-after _ _ (search (tx_rules, fair))
          λ r. Ensures-bind _ _ (store_response-Stored r) λ u. Ensures-pure r (λ w h. h)

    returned :
        (before : Db) (m : Result ManagementResponse × World) (r : ManagementResponse)
        → Returns (λ x. OfDb (Stored x)) m
        → (finish before m).0 ≡ ok r
        → Stored r (finish before m).1.db
    returned before (err x, w) r h e = cc
    returned before (ok r', w) r h e =
        subst (λ x. Stored x w.db)
          (ap (λ (y : Result ManagementResponse). elim y [ ok z ↦ z | err x ↦ r ]) e) h.holds

    unblocked :
        (c : Result (Unit {0})) (m : Tx ManagementResponse) (w : World) (r : ManagementResponse)
        → ((lift c >> m) w).0 ≡ ok r
        → (c ≡ ok tt) × ((lift c >> m) w ≡ m w)
    unfolding ◌>>=◌ lift
    unblocked (err x) m w r e = cc
    unblocked (ok u) m w r e = (refl, refl)

    abbrev call : Tx ManagementResponse
    call = write_idempotent encode "grant" grant code request mutate

    abbrev keyed_call : Tx ManagementResponse
    keyed_call = write (keyed_body encode "grant" grant code request mutate)

    call-keyed_call :
        request.key == "" ≡ false
        → call ≡ (lift (validate_idempotency_key request.key) >> keyed_call)
    unfolding write_idempotent
    call-keyed_call keyed = rw keyed

    keyed_call-Stored :
        (w : World) (r : ManagementResponse)
        → (keyed_call w).0 ≡ ok r
        → Stored r (keyed_call w).1.db
    unfolding keyed_body scope_grant write ◌>>=◌ query pure
    keyed_call-Stored w r e =
        returned w.db (run_or_replay encode code grant request mutate (stored w.db) w) r
          ((run-Stored (stored w.db)).at w (record { holds = refl })) e

    call-Stored :
        (w : World) (r : ManagementResponse)
        → request.key == "" ≡ false
        → (call w).0 ≡ ok r
        → (validate_idempotency_key request.key ≡ ok tt) × Stored r (call w).1.db
    call-Stored w r keyed e =
        let eq = call-keyed_call keyed in
        let e1 = subst (λ (f : Tx ManagementResponse). (f w).0 ≡ ok r) eq e in
        let (valid, same) = unblocked (validate_idempotency_key request.key) keyed_call w r e1 in
        let e2 = subst (λ (x : Result ManagementResponse × World). x.0 ≡ ok r) same e1 in
        (
          valid,
          subst (λ (x : Result ManagementResponse × World). Stored r x.1.db)
              (sym (ap (λ (f : Tx ManagementResponse). f w) eq ∙ same)) (keyed_call-Stored w r e2),
        )

module _ (encode : Fields → String) (grant : String) (code : ℤ) (request : Idempotency)
    (mutate : Tx Fields) where
  -- A call for a stored response, whatever its mutation.
  call-replays :
      (w : World) (r : ManagementResponse)
      → request.key == "" ≡ false
      → validate_idempotency_key request.key ≡ ok tt
      → Stored grant request r w.db
      → write_idempotent encode "grant" grant code request mutate w ≡ (ok r, w)
  unfolding write_idempotent keyed_body scope_grant write ◌>>=◌ query pure lift replay
  call-replays w r keyed valid s = rw (keyed, valid, s.found, s.same, s.status, s.body)

-- A keyed request in the namespace of a grant is executed once: after a call that returned a
-- response, by a mutation that does not itself use the key, a call with the same key and
-- fingerprint returns the same response and leaves the store as it is, whatever its mutation,
-- status and encoding.
pub write_idempotent-once :
    (encode again : Fields → String) (grant : String) (code code_again : ℤ) (request : Idempotency)
    (mutate mutate_again : Tx Fields) (fair : Keeps (OfDb (Unused grant request)) mutate)
    (w : World) (r : ManagementResponse)
    → request.key == "" ≡ false
    → (write_idempotent encode "grant" grant code request mutate w).0 ≡ ok r
    → write_idempotent again "grant" grant code_again request mutate_again
        (write_idempotent encode "grant" grant code request mutate w).1
      ≡ (ok r, (write_idempotent encode "grant" grant code request mutate w).1)
write_idempotent-once encode again grant code code_again request mutate mutate_again fair w r keyed
      e =
    let (valid, filed) = call-Stored grant request encode code mutate fair w r keyed e in
    call-replays again grant code_again request mutate_again _ r keyed valid filed

abbrev pub allocating : Create → Tx Fields
allocating p = do id ← create_allocation p; pure (("id", id) ∷ [])

allocating-Unused :
    (grant : String) (request : Idempotency) (p : Create)
    → Keeps (OfDb (Unused grant request)) (allocating p)
unfolding create_allocation
allocating-Unused grant request p =
    search
      (
        tx_rules,
        transfer_currency-Keeps {P = Unused grant request} (λ f d h. h) (λ f d h. h),
        change_inventory-Keeps {P = Unused grant request} (λ f d h. h),
        balance_currency-Frame (Unused grant request),
      )
      depth 40 fits 4000

-- A check before a call that is executed once.
checked-once :
    (c : Result (Unit {0})) (m : Tx ManagementResponse) (w : World) (r : ManagementResponse)
    → ((m w).0 ≡ ok r → m (m w).1 ≡ (ok r, (m w).1))
    → ((lift c >> m) w).0 ≡ ok r
    → (lift c >> m) ((lift c >> m) w).1 ≡ (ok r, ((lift c >> m) w).1)
unfolding ◌>>=◌ lift
checked-once (err x) m w r once e = cc
checked-once (ok u) m w r once e = once e

-- Creating an allocation under a key moves money once: after a call that returned a response, the
-- same call returns that response again and leaves the store as it is.
pub create_allocation_idempotent-once :
    (encode : Fields → String) (p : Create) (request : Idempotency) (w : World)
    (r : ManagementResponse)
    → request.key == "" ≡ false
    → (create_allocation_idempotent encode p request w).0 ≡ ok r
    → create_allocation_idempotent encode p request
        (create_allocation_idempotent encode p request w).1
      ≡ (ok r, (create_allocation_idempotent encode p request w).1)
unfolding create_allocation_idempotent
create_allocation_idempotent-once encode p request w r keyed e =
    checked-once (prepare_create p) _ w r
      (write_idempotent-once encode encode p.grant_id (pos 201) (pos 201) request (allocating p)
        (allocating p) (allocating-Unused p.grant_id request p) w r keyed)
      e
