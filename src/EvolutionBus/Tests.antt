-- ===== src/EvolutionBus/Tests.antt =====
-- A small evolution bus, and what its operations do.
use scalpel_cli.Common.{◌≡◌, ◌≢◌, refl, false, [], ◌∷◌, some, arith, get_elem?}
use scalpel_cli.Common.Int.{pos}
use scalpel_cli.Common.Dict.{lookup, insert}
use scalpel_cli.CognitiveBus.{
  Message, Phase, Bus, Choice, begin_delivery, deliver_next, deliver_to, send, end_post, subscribed,
  contains,
}
use scalpel_cli.CognitiveBus.Closing.{all_subscribers}
use scalpel_cli.CognitiveBus.Subscribers.{remove_subscriber, add_subscriber, store, delete, without}
use scalpel_cli.CognitiveBus.Safety.{Safe}
use scalpel_cli.EvolutionBus.{new_bus, begin_post, snapshot, subscribe, unsubscribe, shutdown_step}
use scalpel_cli.EvolutionBus.Safety.{
  Reach, here, next, begins, looks, chooses, delivers, subscribes, unsubscribes, shuts,
  evolution-Safe,
}
use scalpel_cli.EvolutionBus.Stalls.{shutdown_steps, unsubscribed_stalls}

-- A subscriber to two types, of which one is posted, that leaves before it takes the message.
abbrev listening : Bus
listening = (subscribe ("GOAL" ∷ "SCORE" ∷ []) (new_bus (pos 4))).0

abbrev posted : Bus
posted = (begin_post "m1" 7 "GOAL" "{}" listening).0

abbrev copied : Bus
copied = snapshot 0 posted

abbrev counted_one : Bus
counted_one = begin_delivery 0 copied

abbrev delivered_one : Bus
delivered_one = (deliver_next Choice.sends 0 counted_one).0

abbrev returned : Bus
returned = begin_delivery 0 delivered_one

abbrev left : Bus
left = unsubscribe 0 ("GOAL" ∷ "SCORE" ∷ []) returned

abbrev stopping_bus : Bus
stopping_bus = shutdown_step (shutdown_step left)

reaches : Reach (new_bus (pos 4)) stopping_bus
reaches =
    next
      (next
        (next
          (next
            (next
              (next
                (next
                  (next (next here (subscribes ("GOAL" ∷ "SCORE" ∷ []) (new_bus (pos 4))))
                    (begins "m1" 7 "GOAL" "{}" listening))
                  (looks 0 posted))
                (chooses 0 copied))
              (delivers Choice.sends 0 counted_one))
            (chooses 0 delivered_one))
          (unsubscribes 0 ("GOAL" ∷ "SCORE" ∷ []) returned))
        (shuts left))
      (shuts (shutdown_step left))

evolution-Safe_example : Safe stopping_bus
evolution-Safe_example = evolution-Safe (pos 4) reaches

abbrev message : Message
message = record { id = "m1"; timestamp = 7; msg_type = "GOAL"; payload = "{}" }

is_stopping : stopping_bus.phase ≡ Phase.stopping
unfolding new_bus end_post subscribe add_subscriber subscribed begin_post snapshot begin_delivery
    deliver_next deliver_to send unsubscribe remove_subscriber store delete without contains
    shutdown_step lookup insert
is_stopping = refl

still_buffered :
    get_elem? stopping_bus.channels 0 ≡ some (record { queue = message ∷ []; is_closed = false })
unfolding new_bus end_post subscribe add_subscriber subscribed begin_post snapshot begin_delivery
    deliver_next deliver_to send unsubscribe remove_subscriber store delete without contains
    shutdown_step lookup insert
still_buffered = refl

is_unlisted : contains 0 (all_subscribers stopping_bus.subscribers) ≡ false
unfolding new_bus end_post subscribe add_subscriber subscribed begin_post snapshot begin_delivery
    deliver_next deliver_to send unsubscribe remove_subscriber store delete without contains
    shutdown_step lookup insert all_subscribers
is_unlisted = refl

unsubscribed_stalls_example : (shutdown_steps 9 stopping_bus).phase ≢ Phase.finished
unsubscribed_stalls_example =
    unsubscribed_stalls 0 (record { queue = message ∷ []; is_closed = false }) 9 stopping_bus
      (evolution-Safe (pos 4) reaches) is_stopping still_buffered is_unlisted (omega arith)
