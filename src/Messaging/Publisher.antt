-- ===== src/Messaging/Publisher.antt =====
-- src/infrastructure/messaging/event-routing.ts and pg-boss-event-publisher.ts. What `boss.send`
-- makes of a job is pg-boss's; `jobs` records the calls, in their order. The envelope's metadata
-- (correlation id, trace context) is left out.
use canals.Prelude.{
  ℕ, Text, codes, text_eq, List, [], ◌∷◌, ◌++◌, Option, none, some, map, if◌then◌else◌,
}
use canals.Errors.{Uuid, Result, ok, err, unrouted_event}
use canals.Store.{JobRow, Database}

-- EVENT_ROUTING
unfoldable pub event_routing : Text → Option (List Text)
event_routing type =
    if text_eq type (codes "order.confirmed")
    then some (codes "shipment.create" ∷ codes "customer.notify" ∷ codes "analytics.record" ∷ [])
    else none

pub record OrderConfirmedPayload : Type 0 where
  pub order_id : Uuid
  pub occurred_at : ℕ

unfoldable pub job_for : OrderConfirmedPayload → Text → JobRow
job_for payload queue = record {
  queue = queue;
  order_id = payload.order_id;
  occurred_at = payload.occurred_at;
}

unfoldable pub publish : Text → OrderConfirmedPayload → Database → Result Database
unfolding event_routing job_for
publish type payload db = elim (event_routing type) [
  | none ↦ err (unrouted_event type)
  | some targets ↦ ok (record db { jobs = db.jobs ++ map (job_for payload) targets })
]
