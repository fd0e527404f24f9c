-- ===== src/Checkout/HoldExpiration/Claims.antt =====
-- Lists of holds: their order, a batch of them, and the ids of a batch.
use bookingqube_nest_backend.Prelude.{
  ℕ, zero, suc, ◌≡◌, refl, ◌∙◌, ap, String, List, [], ◌∷◌, map, filter, any, take, length, Bool,
  true, false, ◌&&◌, ◌||◌, ◌==◌, arith,
}
use bookingqube_nest_backend.Prelude.Text.{same}
use bookingqube_nest_backend.Checkout.Records.{TicketHold}
use bookingqube_nest_backend.Checkout.HoldExpiration.{has_id, insert_hold, by_expiry}
use bookingqube_nest_backend.Checkout.HoldExpiration.Once.{has_id_own}

pub any-insert_hold :
    (f : TicketHold → Bool) (h : TicketHold) (holds : List TicketHold)
    → any f (insert_hold h holds) ≡ (f h || any f holds)
unfolding insert_hold
any-insert_hold f h [] = refl
any-insert_hold f h (x ∷ holds) = ground (arith, any-insert_hold f h holds)

pub any-by_expiry :
    (f : TicketHold → Bool) (holds : List TicketHold) → any f (by_expiry holds) ≡ any f holds
unfolding by_expiry
any-by_expiry f [] = refl
any-by_expiry f (h ∷ holds) =
    any-insert_hold f h (by_expiry holds) ∙ ap (λ b. f h || b) (any-by_expiry f holds)

pub any-filter :
    (f g : TicketHold → Bool) (holds : List TicketHold)
    → any f (filter g holds) ≡ any (λ h. g h && f h) holds
any-filter f g [] = refl
any-filter f g (h ∷ holds) = ground (arith, any-filter f g holds)

pub any-take :
    (f : TicketHold → Bool) (n : ℕ) (holds : List TicketHold)
    → any f (take n holds) ≡ true
    → any f holds ≡ true
any-take f zero holds e = cc
any-take f (suc n) [] e = e
any-take f (suc n) (h ∷ holds) e = ground (arith, any-take f n holds)

pub take-all :
    (n : ℕ) (holds : List TicketHold) → (length (take n holds) == n) ≡ false → take n holds ≡ holds
take-all zero holds e = ground arith
take-all (suc n) [] e = refl
take-all (suc n) (h ∷ holds) e = ap (λ hs. h ∷ hs) (take-all n holds (ground arith))

pub has_id-map :
    (holds : List TicketHold) (id : String)
    → has_id (map (λ (h : TicketHold). h.id) holds) id
      ≡ any (λ (h : TicketHold). same h.id id) holds
has_id-map [] id = refl
has_id-map (h ∷ holds) id = ap (λ b. same h.id id || b) (has_id-map holds id)

pub length-map_id :
    (holds : List TicketHold) → length (map (λ (h : TicketHold). h.id) holds) ≡ length holds
length-map_id [] = refl
length-map_id (h ∷ holds) = ap suc (length-map_id holds)

pub some_has_id :
    (holds : List TicketHold) (n : ℕ)
    → length (map (λ (h : TicketHold). h.id) holds) ≡ suc n
    → any (λ (h : TicketHold). has_id (map (λ (x : TicketHold). x.id) holds) h.id) holds ≡ true
some_has_id [] n e = cc
some_has_id (h ∷ holds) n e = ground (arith, has_id_own h.id)
