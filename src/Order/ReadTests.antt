-- ===== src/Order/ReadTests.antt =====
-- An example of the reading of an order by its owner (src/order/service/order.service.ts).
use marketplace_api_v.Common.{◌≡◌, refl, none, some, [], ◌∷◌, codes}
use marketplace_api_v.Samples.{uuids, pending_order, order_db}
use marketplace_api_v.Identity.Examples.{first}
use marketplace_api_v.Access.Tokens.{
  AccessClaims, read_role_text, parse_payload, is_family_denied, split_on, verify, check_token,
}
use marketplace_api_v.Access.Abilities.{create_for, check_ability}
use marketplace_api_v.Access.Examples.{jwt, request}
use marketplace_api_v.Generic.Cache.{lock_taken, lock_held, wait_or_load}
use marketplace_api_v.Order.Store.{find_by_id_or_fail}
use marketplace_api_v.Order.Reading.{
  found, unauthorized, CacheView, find_by_id, find_readable_by_id, read_order,
}
use marketplace_api_v.Order.Readers.{Presented, IsKnown, IsOwnerOrStaff, read_order-IsOwnerOrStaff}

-- Nothing is cached, and another caller holds the lock for a moment.
abbrev view : CacheView
view = record { first = none; polls = lock_held none ∷ lock_taken ∷ []; random = 0 }

order_read : read_order jwt uuids request first [] view 3 order_db ≡ found pending_order
unfolding read_order check_token split_on verify parse_payload read_role_text is_family_denied
    check_ability create_for find_readable_by_id find_by_id wait_or_load find_by_id_or_fail
order_read = refl

order_unread :
    read_order jwt uuids
      (record request { authorization = some (codes "Basic abc") })
      first
      []
      view
      3
      order_db
    ≡ unauthorized
unfolding read_order check_token split_on
order_unread = refl

read_order-IsOwnerOrStaff_example :
    (c : AccessClaims) × Presented jwt uuids request first [] view 3 order_db pending_order c
    × IsKnown view 3 order_db pending_order
    × IsOwnerOrStaff c pending_order.owner_identity
read_order-IsOwnerOrStaff_example =
    read_order-IsOwnerOrStaff jwt uuids request first [] view 3 order_db pending_order order_read
