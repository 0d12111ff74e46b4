-- ===== src/Ads/MockAdsClient/Laws.antt =====
-- The subscriptions of the synthetic client keep what the recorder relies on, and what it lists it
-- resolves (ads/src/MockAdsClient.cpp).
use scope_analyser.Prelude.{
  ℕ, ◌+◌, ◌≤◌, ◌<◌, ◌≡◌, ◌⊎◌, refl, ◌∙◌, arith, true, false, ◌||◌, some, List, [], ◌∷◌, ◌==◌, All,
  if◌then◌else◌, Option-cases, inl, inr,
}
use scope_analyser.Prelude.Words.{u64_mod}
use scope_analyser.Prelude.Text.{QString, eq_text}
use scope_analyser.Prelude.Dict.{is_some}
use scope_analyser.Ads.Interfaces.{AdsSymbol}
use scope_analyser.Recorder.Interfaces.{AdsNotificationSpec}
use scope_analyser.Ads.MockAdsClient.{
  MockSignalDef, mock_catalog, find_by_offset, subscribe, Subscription, MockAdsClient, sine_1hz,
  cosine_10hz, sawtooth, counter, toggle, noisy_sine, scalar, listed, find_sub, erase_sub,
  subscribed, add_notification, remove_notification, list_symbols, resolve_known, resolve_symbol,
}

-- The handles in use were issued: they are at least 1 and below the next one.
pub record IsIssued (c : MockAdsClient) : Type 0 where
  pub next_pos : 1 ≤ c.next_handle
  pub issued : (h : ℕ) → subscribed c h ≡ true → (1 ≤ h) × (h < c.next_handle)

unused : (c : MockAdsClient) → IsIssued c → subscribed c c.next_handle ≡ false
unused c i = ground (arith, i.issued c.next_handle)

zero_unused : (c : MockAdsClient) → IsIssued c → subscribed c 0 ≡ false
zero_unused c i = ground (arith, i.issued 0)

find_sub-erase_sub :
    (k h : ℕ) (l : List (ℕ × Subscription))
    → is_some (find_sub h (erase_sub k l)) ≡ (if h == k then false else is_some (find_sub h l))
find_sub-erase_sub k h [] = ground arith
find_sub-erase_sub k h ((j, s) ∷ r) = ground (arith, find_sub-erase_sub k h r)

-- After a removal the handle is not subscribed, and every other handle is as before.
pub remove_notification_lem :
    (k : ℕ) (c : MockAdsClient) (h : ℕ)
    → subscribed (remove_notification k c) h ≡ (if h == k then false else subscribed c h)
unfolding subscribed remove_notification
remove_notification_lem k c h = ground (arith, find_sub-erase_sub k h c.subs)

-- What the addition of a subscription owes: the issued handles stay in order, a granted handle was
-- not in use, and it is the only one that becomes subscribed.
abbrev pub IsLawful : MockAdsClient → MockAdsClient × ℕ → Type 0
IsLawful c r =
    IsIssued r.0
    × (subscribed c r.1 ≡ false)
    × ((h : ℕ)
        → subscribed r.0 h ≡ (if r.1 == 0 then subscribed c h else h == r.1 || subscribed c h))

subscribe-subscribed :
    (def : MockSignalDef) (spec : AdsNotificationSpec) (c : MockAdsClient) (h : ℕ)
    → IsIssued c
    → subscribed (subscribe def spec c).0 h ≡ (h == c.next_handle || subscribed c h)
unfolding subscribed subscribe
subscribe-subscribed def spec c h i = ground (arith, unused c i)

next_after :
    (def : MockSignalDef) (spec : AdsNotificationSpec) (c : MockAdsClient)
    → c.next_handle + 1 < u64_mod
    → (subscribe def spec c).0.next_handle ≡ c.next_handle + 1
unfolding subscribe
next_after def spec c room = omega arith

handle_of_subscribe :
    (def : MockSignalDef) (spec : AdsNotificationSpec) (c : MockAdsClient)
    → (subscribe def spec c).1 ≡ c.next_handle
unfolding subscribe
handle_of_subscribe def spec c = refl

subscribe-IsLawful :
    (def : MockSignalDef) (spec : AdsNotificationSpec) (c : MockAdsClient)
    → IsIssued c
    → c.next_handle + 1 < u64_mod
    → IsLawful c (subscribe def spec c)
subscribe-IsLawful def spec c i room = (
  record {
    next_pos = omega (arith, next_after def spec c room);
    issued = λ h e. ground (
      arith,
      next_after def spec c room,
      subscribe-subscribed def spec c h i,
      i.issued h,
      i.next_pos,
    );
  },
  rw (handle_of_subscribe def spec c) (unused c i),
  λ h.
      ground
        (arith, handle_of_subscribe def spec c, subscribe-subscribed def spec c h i, i.next_pos),
)

-- Where the handles in use were issued before the next one, and that is not the last 64-bit number,
-- adding a notification keeps them so; the returned handle was not subscribed; and exactly it
-- becomes subscribed, and nothing when the returned handle is 0.
pub add_notification-IsLawful :
    (spec : AdsNotificationSpec) (c : MockAdsClient)
    → IsIssued c
    → c.next_handle + 1 < u64_mod
    → IsLawful c (add_notification spec c)
unfolding add_notification
add_notification-IsLawful spec c i room =
    elim (Option-cases (find_by_offset spec.index_offset mock_catalog)) [
      | inl e ↦ rw (add_notification, e) (i, zero_unused c i, λ h. refl)
      | inr (def, e) ↦ rw (add_notification, e) (subscribe-IsLawful def spec c i room)
    ]

-- What the resolution of a listed symbol's name finds.
abbrev pub Resolves : (QString → QString) → MockAdsClient → AdsSymbol → Type 0
Resolves trimmed c s =
    (r : AdsSymbol) × (resolve_symbol trimmed s.name c ≡ some r)
    × (r.name ≡ s.name)
    × (r.data_type ≡ s.data_type)
    × (r.index_group ≡ s.index_group)
    × (r.index_offset ≡ s.index_offset)
    × (r.size ≡ s.size)

resolve-known :
    (trimmed : QString → QString) (n : QString) (c : MockAdsClient)
    → c.connected ≡ true
    → trimmed n ≡ n
    → resolve_symbol trimmed n c ≡ resolve_known n
unfolding resolve_symbol
resolve-known trimmed n c on t = rw (resolve_symbol, on, t) refl

from_catalog :
    (comment : ℕ → QString) (trimmed : QString → QString) (c : MockAdsClient) (s : MockSignalDef)
    → c.connected ≡ true
    → trimmed s.name ≡ s.name
    → resolve_known s.name ≡ some (scalar s.name s.type_name s.data_type s.index_offset [])
    → Resolves trimmed c (listed comment s)
from_catalog comment trimmed c s on t e = (
  scalar s.name s.type_name s.data_type s.index_offset [],
  resolve-known trimmed s.name c on t ∙ e,
  refl,
  refl,
  refl,
  refl,
  refl,
)

-- On a connected client, with a trim that leaves the catalogue's names: every listed symbol that is
-- not marked as unsupported resolves by its name, to a symbol of the same name, type, index group,
-- offset and size.
pub list_symbols-Resolves :
    (comment : ℕ → QString) (trimmed : QString → QString) (c : MockAdsClient)
    → All (λ s. trimmed s.name ≡ s.name) mock_catalog
    → c.connected ≡ true
    → All (λ s. (s.unsupported ≡ true) ⊎ Resolves trimmed c s) (list_symbols comment)
unfolding list_symbols resolve_known eq_text
list_symbols-Resolves comment trimmed c (t1, (t2, (t3, (t4, (t5, (t6, _)))))) on = (
  inr (from_catalog comment trimmed c sine_1hz on t1 refl),
  (
    inr (from_catalog comment trimmed c cosine_10hz on t2 refl),
    (
      inr (from_catalog comment trimmed c sawtooth on t3 refl),
      (
        inr (from_catalog comment trimmed c counter on t4 refl),
        (
          inr (from_catalog comment trimmed c toggle on t5 refl),
          (inr (from_catalog comment trimmed c noisy_sine on t6 refl), (inl refl, tt)),
        ),
      ),
    ),
  ),
)
