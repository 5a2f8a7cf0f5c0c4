-- ===== src/Watch/Examples.antt =====
-- A hub with a watcher of one key, to which a watcher of a prefix is added.
use lightkv.Prelude.{◌≡◌, refl, inl, arith, false, [], ◌∷◌, ◌++◌}
use lightkv.Watch.{WatchHub, star, subscribe, unsubscribe, notify}
use lightkv.Watch.Delivery.{IsHub, Covers, subscribe-notify}

abbrev one_watcher : WatchHub
one_watcher = record {
  watchers = (record { id = 1; is_prefix = false; pattern = 0x61 ∷ 0x62 ∷ [] }) ∷ [];
  next_id = 2;
}

covered : Covers (0x61 ∷ star ∷ []) (0x61 ∷ 0x62 ∷ [])
covered = inl (0x61 ∷ [], 0x62 ∷ [], refl, refl)

subscribe-notify_example :
    IsHub (subscribe (0x61 ∷ star ∷ []) one_watcher).1
    × (Covers (0x61 ∷ star ∷ []) (0x61 ∷ 0x62 ∷ [])
        → (notify (0x61 ∷ 0x62 ∷ []) (0x73 ∷ []) 9 (subscribe (0x61 ∷ star ∷ []) one_watcher).1).0
          ≡ (notify (0x61 ∷ 0x62 ∷ []) (0x73 ∷ []) 9 one_watcher).0
            ++ (record {
              watcher_id = (subscribe (0x61 ∷ star ∷ []) one_watcher).0;
              watched = 0x61 ∷ star ∷ [];
              key = 0x61 ∷ 0x62 ∷ [];
              event = 0x73 ∷ [];
              revision = 9;
            })
              ∷ [])
    × ((Covers (0x61 ∷ star ∷ []) (0x61 ∷ 0x62 ∷ []) → ⊥)
        → (notify (0x61 ∷ 0x62 ∷ []) (0x73 ∷ []) 9 (subscribe (0x61 ∷ star ∷ []) one_watcher).1).0
          ≡ (notify (0x61 ∷ 0x62 ∷ []) (0x73 ∷ []) 9 one_watcher).0)
    × ((unsubscribe
          (subscribe (0x61 ∷ star ∷ []) one_watcher).0
          (subscribe (0x61 ∷ star ∷ []) one_watcher).1).watchers
        ≡ one_watcher.watchers)
subscribe-notify_example =
    subscribe-notify (0x61 ∷ star ∷ []) (0x61 ∷ 0x62 ∷ []) (0x73 ∷ []) 9 one_watcher
      (omega arith, tt) (omega arith)
