-- ===== src/PaymentsMock/Charges/Tests.antt =====
-- Two charges under one key, one after the other.
use canals.Prelude.{◌≡◌, refl, codes, [], ◌∷◌, some}
use canals.PaymentsMock.Charges.{
  ChargeRequestBody, ChargeRecord, ChargeService, ChargeServices, PendingCharge, charged, settled,
  approving, approved, arrive, finish, find_pending, attempt_of, record_of, card_last4,
}
use canals.PaymentsMock.Charges.Laws.Once.{done, arrives, charged_once, empty_service}

abbrev plain_services : ChargeServices
plain_services = record {
  sha256 = λ t. t;
  print_number = λ n. n ∷ [];
  print_date = λ n. n ∷ [];
  new_id = λ records. codes "1";
}

abbrev visa_charge : ChargeRequestBody
visa_charge = record {
  card_number = codes "4242 4242 4242 4242";
  amount_cents = 5000;
  currency = codes "USD";
  description = codes "Order 1";
}

digits_kept : card_last4 visa_charge.card_number ≡ codes "4242"
unfolding card_last4
digits_kept = refl

abbrev first_charge : PendingCharge
first_charge = record {
  attempt = attempt_of plain_services (codes "k") visa_charge;
  stage = approving;
}

abbrev stored_charge : ChargeRecord
stored_charge = record_of plain_services 20 first_charge.attempt approved []

abbrev second_charge : PendingCharge
second_charge = record {
  attempt = attempt_of plain_services (codes "k") visa_charge;
  stage = settled (charged stored_charge);
}

abbrev waiting_service : ChargeService
waiting_service = arrive plain_services 10 (codes "k") visa_charge (empty_service plain_services)

abbrev charged_service : ChargeService
charged_service = (finish plain_services 20 first_charge waiting_service).1

abbrev replaying_service : ChargeService
replaying_service = arrive plain_services 30 (codes "k") visa_charge charged_service

first_pending_found : find_pending (codes "k") waiting_service.pending ≡ some first_charge
unfolding find_pending arrive
first_pending_found = refl

first_gave : (finish plain_services 20 first_charge waiting_service).0 ≡ charged stored_charge
unfolding finish
first_gave = refl

second_pending_found : find_pending (codes "k") replaying_service.pending ≡ some second_charge
unfolding find_pending arrive finish
second_pending_found = refl

second_gave : (finish plain_services 40 second_charge replaying_service).0 ≡ charged stored_charge
unfolding finish
second_gave = refl

charged_once_example :
    (stored_charge ≡ stored_charge)
    × (second_charge.attempt.hash ≡ first_charge.attempt.hash)
    × (stored_charge.idempotency_key ≡ first_charge.attempt.idempotency_key)
charged_once_example =
    charged_once plain_services waiting_service replaying_service 20 40 first_charge second_charge
      stored_charge stored_charge (arrives 10 (codes "k") visa_charge done) first_pending_found
      first_gave (arrives 30 (codes "k") visa_charge done) second_pending_found second_gave refl
