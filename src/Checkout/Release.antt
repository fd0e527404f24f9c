-- ===== src/Checkout/Release.antt =====
-- `releaseHold` of src/modules/checkout/checkout.service.ts. The digest of a release token is a
-- parameter.
pub mod Once
use bookingqube_nest_backend.Prelude.{
  ℕ, String, Option, none, some, List, [], ◌∷◌, ◌++◌, map, filter, Bool, true, false, not, ◌&&◌,
  ◌||◌, if◌then◌else◌,
}
use bookingqube_nest_backend.Prelude.Text.{Text, same, trim}
use bookingqube_nest_backend.Prelude.Http.{Result, ok, err, forbidden, not_found, ◌>>=◌}
use bookingqube_nest_backend.Inventory.Service.{release}
use bookingqube_nest_backend.Checkout.Records.{TicketHold, released, Order, cancelled, Bookings}
use bookingqube_nest_backend.Checkout.HoldExpiration.{
  is_active_hold, is_pending_payment, has_some_id, order_ids, find_hold, mark_recovery,
}
use bookingqube_nest_backend.Checkout.Recovery.{is_empty}

-- The message of an answer.
pub data ReleaseReply : Type 0 where
  already_released hold_released : ReleaseReply

abbrev pub trim_token : Option Text → Text
trim_token none = []
trim_token (some token) = trim token

abbrev pub is_actor : Option String → Option String → Bool
is_actor (some actor) (some customer) = same actor customer
is_actor _ _ = false

abbrev pub belongs_to : String → Order → Bool
belongs_to hold_id o = has_some_id (hold_id ∷ []) o.hold_id

abbrev pub release_row : String → TicketHold → TicketHold
release_row hold_id h = if same h.id hold_id then record h { status = released } else h

abbrev pub cancel_order : String → ℕ → Order → Order
cancel_order hold_id now o =
    if belongs_to hold_id o && is_pending_payment o.status
    then record o { status = cancelled; cancelled_at = some now }
    else o

-- What is done for a hold that was read, whose orders were read with it.
unfoldable pub free_hold : Bookings → ℕ → TicketHold → List Order → Bookings
unfolding release
free_hold s now h orders = record s {
  store = release s.store h.items;
  jobs = filter (λ id. not (same id h.id)) s.jobs;
  holds = map (release_row h.id) s.holds;
  orders = map (cancel_order h.id now) s.orders;
  recoveries =
      map (mark_recovery (order_ids (λ (o : Order). is_pending_payment o.status) orders))
        s.recoveries;
  report_syncs = s.report_syncs ++ map (λ (o : Order). o.id) orders;
}

module _ (digest : Text → String) where
  -- `releaseTokenMatches`, for a hold that may have no token.
  abbrev pub token_matches : Option String → Text → Bool
  token_matches none token = false
  token_matches (some hash) token = not (is_empty token) && same hash (digest token)

  abbrev pub may_release : TicketHold → Option String → Option Text → Bool
  may_release h actor_id release_token =
      is_actor actor_id h.customer_id
      || token_matches h.release_token_hash (trim_token release_token)

  abbrev pub release_found :
      Bookings
      → ℕ
      → Option String
      → Option Text
      → Option TicketHold
      → Result (Bookings × ReleaseReply)
  release_found s now actor_id release_token none = err (not_found "Hold not found.")
  release_found s now actor_id release_token (some h) =
      if not (is_active_hold h.status)
      then ok (s, already_released)
      else if not (may_release h actor_id release_token)
      then err (forbidden "Hold release is not authorized.")
      else ok (free_hold s now h (filter (belongs_to h.id) s.orders), hold_released)

  unfoldable pub release_hold :
      Bookings → ℕ → String → Option String → Option Text → Result (Bookings × ReleaseReply)
  unfolding find_hold free_hold trim
  release_hold s now hold_id actor_id release_token =
      release_found s now actor_id release_token (find_hold hold_id s.holds)
