-- ===== src/Storage/Memory/Deliveries.antt =====
-- The deliveries of handoffs that the store keeps, from their beginning to their end.
use ai_memmail.Prelude.{String, Option, none, some, ◌≡◌, refl}
use ai_memmail.Prelude.Assoc.{lookup, lookup-insert_self}
use ai_memmail.Text.{Text}
use ai_memmail.Storage.{NewThreadHandoffDelivery, ThreadHandoffDelivery}
use ai_memmail.Storage.Memory.{
  MemoryProcessingStore, DeliveryKey_eq, delivery_key, sending, begin_known,
  begin_thread_handoff_delivery, finish_thread_handoff_delivery,
}

begin_known-lookup :
    (d : NewThreadHandoffDelivery) (s : MemoryProcessingStore) (o : Option ThreadHandoffDelivery)
    → lookup (delivery_key d.mailbox_id d.thread_id d.request_id) s.handoff_deliveries ≡ o
    → lookup
        (delivery_key d.mailbox_id d.thread_id d.request_id)
        (begin_known
          (delivery_key d.mailbox_id d.thread_id d.request_id)
          d
          s
          o).1.handoff_deliveries
      ≡ some (begin_known (delivery_key d.mailbox_id d.thread_id d.request_id) d s o).0
begin_known-lookup d s none h = lookup-insert_self _ (sending d) s.handoff_deliveries
begin_known-lookup d s (some known) h = h

-- The delivery that was begun is the one that the store keeps for the request.
begin_thread_handoff_delivery-lookup :
    (d : NewThreadHandoffDelivery) (s : MemoryProcessingStore)
    → lookup
        (delivery_key d.mailbox_id d.thread_id d.request_id)
        (begin_thread_handoff_delivery d s).1.handoff_deliveries
      ≡ some (begin_thread_handoff_delivery d s).0
unfolding begin_thread_handoff_delivery
begin_thread_handoff_delivery-lookup d s = begin_known-lookup d s _ refl

begin_again :
    (e : NewThreadHandoffDelivery) (t : MemoryProcessingStore) (known : ThreadHandoffDelivery)
    → lookup (delivery_key e.mailbox_id e.thread_id e.request_id) t.handoff_deliveries ≡ some known
    → begin_thread_handoff_delivery e t ≡ (known, t)
unfolding begin_thread_handoff_delivery
begin_again e t known h = rw h

-- Beginning the delivery of a request that was finished gives it as it was finished, and leaves the
-- store as it is.
pub begin_thread_handoff_delivery-finish :
    (d : NewThreadHandoffDelivery) (status : String) (error : Option Text)
    (s : MemoryProcessingStore)
    → begin_thread_handoff_delivery d (
        finish_thread_handoff_delivery d.mailbox_id d.thread_id d.request_id status error
          (begin_thread_handoff_delivery d s).1)
      ≡ (
        record (begin_thread_handoff_delivery d s).0 { status = status; error = error },
        finish_thread_handoff_delivery d.mailbox_id d.thread_id d.request_id status error
            (begin_thread_handoff_delivery d s).1,
      )
unfolding finish_thread_handoff_delivery
begin_thread_handoff_delivery-finish d status error s =
    rw (begin_thread_handoff_delivery-lookup d s) (
      begin_again d _ _ (
        lookup-insert_self (delivery_key d.mailbox_id d.thread_id d.request_id) _
          (begin_thread_handoff_delivery d s).1.handoff_deliveries))
