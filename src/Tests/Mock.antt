-- ===== src/Tests/Mock.antt =====
-- The theorems on the synthetic client at a concrete state.
use scope_analyser.Prelude.{arith, true, [], ◌∷◌}
use scope_analyser.Recorder.Interfaces.{AdsNotificationSpec}
use scope_analyser.Ads.MockAdsClient.{MockAdsClient, counter, subscribed, add_notification}
use scope_analyser.Ads.MockAdsClient.Laws.{IsIssued, IsLawful, add_notification-IsLawful}

abbrev one_subscription : MockAdsClient
one_subscription = record {
  connected = true;
  subs = (3, record { def = counter; cycle_time_us = 10000 }) ∷ [];
  next_handle = 4;
}

one_subscription-IsIssued : IsIssued one_subscription
unfolding subscribed
one_subscription-IsIssued = record { next_pos = omega arith; issued = λ h e. ground arith }

abbrev spec : AdsNotificationSpec
spec = record {
  index_group = 0;
  index_offset = 5;
  length_bytes = 1;
  cycle_time_us = 0;
  max_age_us = 0;
}

add_notification-IsLawful_example :
    IsLawful one_subscription (add_notification spec one_subscription)
add_notification-IsLawful_example =
    add_notification-IsLawful spec one_subscription one_subscription-IsIssued (omega arith)
