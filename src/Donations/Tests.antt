-- ===== src/Donations/Tests.antt =====
-- The numbers of early supporters at two supporters.
use ziona_server.Base.{◌≤◌, ◌≡◌, refl, true, false, none, some, [], ◌∷◌, codes, count_if, arith}
use ziona_server.Donations.Supporters.{
  SupporterIdentity, Donation, DonationStore, pending, completed, mark_succeeded,
  assign_early_supporter,
}
use ziona_server.Donations.Numbers.{HasNumbers, is_early, mark_succeeded-HasNumbers}

abbrev first : SupporterIdentity
first = record {
  id = 1;
  is_early_supporter = true;
  early_supporter_number = some 1;
  first_supported_at = some 3;
  last_supported_at = some 3;
}

abbrev second : SupporterIdentity
second = record {
  id = 2;
  is_early_supporter = false;
  early_supporter_number = none;
  first_supported_at = none;
  last_supported_at = none;
}

abbrev donation : Donation
donation = record {
  id = 7;
  donor_name = codes "Ann";
  donor_email = codes "ann@z.app";
  amount = 500;
  status = pending;
  completed_at = none;
  is_early_supporter = false;
}

abbrev store : DonationStore
store = record {
  identities = first ∷ second ∷ [];
  program = some (record { next_early_supporter_number = 2; assigned_early_supporter_count = 1 });
  donations = donation ∷ [];
  mails = [];
}

-- The second supporter gets the number 2, and one mail goes out for two deliveries of the event.
confirmed_once :
    let once = mark_succeeded 5 donation (some second) store in
    let twice =
      mark_succeeded 6
        (completed 5 true donation)
        (some (assign_early_supporter 5 second store).0)
        once in
    (twice.mails ≡ completed 5 true donation ∷ [])
    × (twice.program
        ≡ some (record { next_early_supporter_number = 3; assigned_early_supporter_count = 2 }))
unfolding mark_succeeded assign_early_supporter
confirmed_once = (refl, refl)

store-HasNumbers : HasNumbers store
store-HasNumbers = record {
  keyed = λ i. ground arith;
  matched = λ i x h. ground arith;
  numbered = λ n. ground arith;
  counted = refl;
  in_step = refl;
  bounded = omega arith;
}

mark_succeeded-HasNumbers_example :
    HasNumbers (mark_succeeded 5 donation (some second) store)
    × (count_if is_early (mark_succeeded 5 donation (some second) store).identities ≤ 1000)
mark_succeeded-HasNumbers_example =
    mark_succeeded-HasNumbers 5 donation (some second) store store-HasNumbers refl
