-- ===== src/Checkout/Confirmation/Verified.antt =====
-- An order is confirmed only for a payment that fits it.
use bookingqube_nest_backend.Prelude.Text.{Text}
use bookingqube_nest_backend.Prelude.Http.{Result, HttpError, not_found}
use bookingqube_nest_backend.Checkout.Records.{Bookings}
use bookingqube_nest_backend.Checkout.Confirmation.{ConfirmReply}

abbrev Answer : Type 0
Answer = Bookings × Result ConfirmReply

abbrev not_there : HttpError
not_there = not_found "Order not found."
