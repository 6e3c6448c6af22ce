-- ===== src/CognitiveBus/Tests.antt =====
-- A small bus, and what its operations do.
use scalpel_cli.Common.{◌+◌, ◌≡◌, refl, [], ◌∷◌, length}
use scalpel_cli.Common.Int.{pos}
use scalpel_cli.Common.Dict.{lookup, insert}
use scalpel_cli.CognitiveBus.{
  Message, Bus, Choice, new_bus, begin_post, snapshot, begin_delivery, deliver_next, targets,
  subscribed, unique, contains, enrich, deliver_to, send,
}
use scalpel_cli.CognitiveBus.Closing.{shutdown_step}
use scalpel_cli.CognitiveBus.Subscribers.{subscribe, add_subscriber, unsubscribe}
use scalpel_cli.CognitiveBus.Counts.{count}
use scalpel_cli.CognitiveBus.Subscriptions.{unsubscribe-subscribe}
use scalpel_cli.CognitiveBus.Safety.{Safe}
use scalpel_cli.CognitiveBus.Safety.Steps.{
  here, next, begins, looks, chooses, delivers, subscribes, shuts, reachable-Safe,
}

abbrev action : Message
action = record { id = ""; timestamp = 0; msg_type = "ACTION"; payload = "" }

-- One subscriber to actions and to all, and a post that is delivered to it.
abbrev listening : Bus
listening = (subscribe ("ACTION" ∷ "" ∷ []) (new_bus (pos 4))).0

abbrev posted : Bus
posted = (begin_post "m1" 7 action listening).0

abbrev handed_over : Bus
handed_over = (deliver_next Choice.sends 0 (begin_delivery 0 (snapshot 0 posted))).0

posted_once : length handed_over.channels + handed_over.processing ≡ 2
unfolding new_bus subscribe add_subscriber subscribed lookup insert begin_post enrich snapshot
    targets unique contains begin_delivery deliver_next deliver_to send
posted_once = refl

reachable-Safe_example : Safe (shutdown_step handed_over)
reachable-Safe_example = reachable-Safe (pos 4) (
    next
      (next
        (next
          (next
            (next (next here (subscribes ("ACTION" ∷ "" ∷ []) (new_bus (pos 4))))
              (begins "m1" 7 action listening))
            (looks 0 posted))
          (chooses 0 (snapshot 0 posted)))
        (delivers Choice.sends 0 (begin_delivery 0 (snapshot 0 posted))))
      (shuts handed_over))

unsubscribe-subscribe_example :
    count 0 (
      subscribed "ACTION" (
        unsubscribe
          (subscribe ("ACTION" ∷ "ACTION" ∷ []) listening).1
          ("ACTION" ∷ "ACTION" ∷ [])
          (subscribe ("ACTION" ∷ "ACTION" ∷ []) listening).0))
    ≡ count 0 (subscribed "ACTION" listening)
unsubscribe-subscribe_example =
    unsubscribe-subscribe ("ACTION" ∷ "ACTION" ∷ []) listening "ACTION" 0
