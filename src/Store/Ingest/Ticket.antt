-- ===== src/Store/Ingest/Ticket.antt =====
-- internal/store/ingest.go, `Ingest`: the terms of a ticket that is applied.
use clearinghouse_batteries.Base.{String, ◌≡◌, Bool, true, false, ◌&&◌, ◌==◌, some}
use clearinghouse_batteries.Base.Lists.{find}
use clearinghouse_batteries.Db.{Db, PaymentSession}
use clearinghouse_batteries.Store.Manage.Status.{has_session_id}
use clearinghouse_batteries.Store.Ingest.Classify.{
  Draft, matches_binding, valid_ticket, is_missing, joined,
}

abbrev is_applied : Draft → Bool
is_applied d = d.status == "applied"

-- The terms of a ticket `d0` that becomes the applied message `d` in a database.
pub record Applied (db : Db) (d0 d : Draft) : Type 0 where
  pub undecided : is_applied d0 ≡ true
  pub session : PaymentSession
  pub currency : String
  pub known :
      joined (find (has_session_id d0.event.auth_id) db.sessions) db.allocations
      ≡ some (session, currency)
  pub matches : matches_binding d0.event session ≡ true
  pub valid : valid_ticket d0.event ≡ true
  pub priced : currency == "usd" && is_missing d.usd_units ≡ false
  pub charged_to : d.allocation ≡ session.allocation_id
  pub charged_in : d.currency ≡ currency
