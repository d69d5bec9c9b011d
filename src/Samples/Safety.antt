-- ===== src/Samples/Safety.antt =====
-- A broker that has been created, and polled once: a client has connected.
use arbor_mq.Base.{[], ◌∷◌, ◌≡◌, refl, none, some, Returns, arith}
use arbor_mq.Broker.State.{
  free_slots, out_publish_sent, Broker, client_at, record_effect, socket_opened,
}
use arbor_mq.Broker.Send.{success}
use arbor_mq.Broker.Poll.{
  started, io_loop, is_set, is_past, accept_connection, watched_read, fresh_broker, open_listener,
  branch_create, branch_poll, branch_destroy,
}
use arbor_mq.Broker.Tables.{find_free_client, slot_at}
use arbor_mq.Broker.Publish.Slots.{SlotStep, pubrec, on_occasion, on_occasion-SlotStep}
use arbor_mq.Broker.Receive.{check_keepalive, check_clients}
use arbor_mq.Broker.Safe.{Safe}
use arbor_mq.Broker.Poll.Destroy.{ClosesAll}
use arbor_mq.Broker.Safe.Reachable.{Reachable, created, polled, reachable-Safe, reachable_destroy}
use arbor_mq.Samples.Brokers.{pinging, pinging-ReceivesAtMost, publishing}

abbrev begun : Broker
begun = open_listener (record_effect (fresh_broker pinging) socket_opened) 1883 (some 3)

begun-Reachable : Reachable begun
unfolding branch_create
begun-Reachable = created pinging 1883 pinging-ReceivesAtMost refl

abbrev connecting : (b : Broker) × (branch_poll begun none ≡ some (b, success))
unfolding branch_poll fresh_broker started io_loop is_set is_past accept_connection find_free_client
    watched_read check_keepalive check_clients
connecting = (_, refl)

connecting-Reachable : Reachable connecting.0
connecting-Reachable = polled none success begun-Reachable connecting.1

reachable-Safe_example : Safe connecting.0
reachable-Safe_example = reachable-Safe connecting.0 connecting-Reachable

reachable_destroy_example : Returns (ClosesAll connecting.0) (branch_destroy connecting.0)
reachable_destroy_example = reachable_destroy connecting.0 connecting-Reachable

-- A client whose first slot holds a message that went out with the packet id 7.
abbrev exchanging : Broker
exchanging = record publishing {
  clients =
      record (client_at publishing 0) {
        qos2 =
            record { pid = 7; state = out_publish_sent; from_client = 0; t_ms = 1 } ∷ free_slots 7;
      }
      ∷ [];
}

on_occasion-SlotStep_example :
    SlotStep 7 pubrec (slot_at exchanging 0 0) (slot_at (on_occasion pubrec exchanging 0 7) 0 0)
on_occasion-SlotStep_example = on_occasion-SlotStep pubrec exchanging 0 7 0 (omega arith)
