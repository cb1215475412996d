-- ===== src/Client/Get/Retries.antt =====
-- A timeout of a download: it sends its last packet again, or stops.
use octnet_tftp.Base.{◌≡◌, inl, inr, true, false, Bool-cases, [], ◌∷◌}
use octnet_tftp.Base.Int.{pred, is_pos}
use octnet_tftp.Net.{EndpointOps, success, send_to, sent_to}
use octnet_tftp.Client.Get.{
  ClientGet, on_send_timeout, retry, send_prepared_packet, terminate, stop,
}

module _ {E : Type 0} ⦃endpoints : EndpointOps E⦄ where
  pub stop_state : (s : ClientGet E) → (stop s).0 ≡ record s { socket_is_open = false }
  unfolding stop
  stop_state s = elim (Bool-cases s.socket_is_open) [ inl e ↦ rw e | inr e ↦ rw e ]

  pub stop_sends : (s : ClientGet E) (peer : E) → sent_to peer (stop s).1 ≡ []
  unfolding stop
  stop_sends s peer = elim (Bool-cases s.socket_is_open) [ inl e ↦ rw e | inr e ↦ rw e ]

  abbrev pub counted : ClientGet E → ClientGet E
  counted s = record s { retry_counter = pred s.retry_counter }

  pub timeout_sends :
      (s : ClientGet E)
      → is_pos (pred s.retry_counter) ≡ true
      → on_send_timeout s success ≡ (counted s, send_to s.out_packet_data s.server_endpoint ∷ [])
  unfolding on_send_timeout retry send_prepared_packet
  timeout_sends s e = rw e

  pub timeout_stops :
      (s : ClientGet E)
      → is_pos (pred s.retry_counter) ≡ false
      → on_send_timeout s success ≡ stop (counted s)
  unfolding on_send_timeout retry terminate
  timeout_stops s e = rw e
