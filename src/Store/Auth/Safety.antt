-- ===== src/Store/Auth/Safety.antt =====
-- internal/store/auth.go, `decide`: the terms of an authorization.
use clearinghouse_batteries.Base.{String, ◌≡◌, Bool, true, false, ◌==◌, if◌then◌else◌}
use clearinghouse_batteries.Base.Int.{ℤ, pos, leb_ℤ, is_positive, eqb_ℤ}
use clearinghouse_batteries.Base.Exec.{Result, ok, err}
use clearinghouse_batteries.Store.Amount.{address}
use clearinghouse_batteries.Store.Auth.Decide.{
  RemoteState, Decision, decision, Snapshot, is_authentic, is_live, is_bound, fee_of,
}
use clearinghouse_batteries.Store.Auth.Fresh.{Fresh}

-- The terms of an authorization of a key on a session or on none, at a time.
pub record Allowed (state : RemoteState) (key hash : String) (now max_age : ℤ) (a : Snapshot)
    (d : Decision) : Type 0 where
  pub authentic : is_authentic hash a ≡ true
  pub live : is_live now a ≡ true
  pub not_exhausted : (a.allocation_status == "exhausted") ≡ false
  pub fee : ℤ
  pub fee_read : fee_of state a.currency ≡ ok (ok fee)
  pub affordable : leb_ℤ fee a.balance ≡ true
  pub funded : is_positive a.balance ≡ true
  pub orchestrator : String
  pub orchestrator_read : address state.orchestrator_address ≡ ok orchestrator
  pub bound : (if a.id == "" then state.auth_id == "" else is_bound state key orchestrator a) ≡ true
  pub lag : Fresh a.lag now max_age
  pub session : d.auth_id ≡ a.id

abbrev is_ok_200 : Result Decision → Bool
is_ok_200 (ok d) = eqb_ℤ d.status (pos 200)
is_ok_200 (err e) = false

abbrev pick : Bool → Bool → Bool → Decision → Decision
pick i u b l =
    if i
    then if u then l else decision (pos 403) "unknown auth_id"
    else if b
    then l
    else decision (pos 403) "session is revoked or binding does not match"

module _ (state : RemoteState) (key hash : String) (now max_age : ℤ) (a : Snapshot) where
  record Settled (orch : String) (d : Decision) : Type 0 where
    pub bound : (if a.id == "" then state.auth_id == "" else is_bound state key orch a) ≡ true
    pub lag : Fresh a.lag now max_age
    pub session : d.auth_id ≡ a.id

  module _ (d : Decision) (allowed : eqb_ℤ d.status (pos 200) ≡ true) where
    record Checked : Type 0 where
      pub orchestrator : String
      pub orchestrator_read : address state.orchestrator_address ≡ ok orchestrator
      pub settled : Settled orchestrator d
