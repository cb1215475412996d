-- ===== src/Server/Connection/Completions.antt =====
-- What the completion of an operation makes a connection of either class ask for.
use octnet_tftp.Base.{
  ℕ, zero, suc, ◌≤◌, ◌≡◌, ◌⊎◌, inl, inr, refl, sym, ap, subst, true, Bool-cases, List, [], ◌∷◌,
  Bytes, arith,
}
use octnet_tftp.Base.Int.{ℤ, pos, negsuc, pred, is_pos, to_nat}
use octnet_tftp.Net.{
  EndpointOps, success, failed, Effect, open_socket, send_to, start_timer, receive_from,
  connection_terminated, Outcome,
}
use octnet_tftp.Net.Pending.{Goes}
use octnet_tftp.Wire.Packet.{default_retry_timeout_sec}
use octnet_tftp.Io.Interface.{ReaderOps, WriterOps}
use octnet_tftp.Io.Manager.{IoManager}
use octnet_tftp.Server.Result.{returned, all_succeed}
use octnet_tftp.Server.ReadConnection.Pending as ReadPending
use octnet_tftp.Server.WriteConnection.Pending as WritePending
use octnet_tftp.Server.Connection.{
  Connection, reads, writes, as_reads, as_writes, packet_sent, send_timeout, packet_received,
  datagram, complete, start, start_reads, start_writes,
}

one_less : (z : ℤ) → is_pos (pred z) ≡ true → suc (to_nat (pred z)) ≤ to_nat z
one_less (pos zero) e = ground arith
one_less (pos (suc n)) e = omega arith
one_less (negsuc n) e = ground arith

module _ {E R W : Type 0} where
  -- The retries that are left.
  abbrev pub retries : Connection E R W → ℕ
  retries (reads s) = to_nat s.retry_counter
  retries (writes s) = to_nat s.retry_counter

module _ {E R W : Type 0} ⦃readers : ReaderOps R⦄ ⦃writers : WriterOps W⦄ where
  pub started-Goes :
      (m : IoManager R W) (c : Connection E R W)
      → (c' : Connection E R W) × (effects : List (Effect E)) × (start m all_succeed c
          ≡ returned (c', open_socket ∷ effects))
        × Goes effects
  started-Goes m (reads s) =
      let (s', effects, e, g) = ReadPending.started-Goes m s in
      (reads s', effects, start_reads m all_succeed s e, g)
  started-Goes m (writes s) =
      let (s', effects, e, g) = WritePending.started-Goes m s in
      (writes s', effects, start_writes m all_succeed s e, g)

  module _ ⦃endpoints : EndpointOps E⦄ where
    pub sent_cases :
        (c : Connection E R W)
        → (complete (packet_sent success) c
            ≡ (c, start_timer default_retry_timeout_sec ∷ receive_from ∷ []))
          ⊎ (complete (packet_sent success) c ≡ (c, connection_terminated ∷ []))
    unfolding complete
    sent_cases (reads s) = elim (ReadPending.sent_cases s) [
      | inl e ↦ inl (ap as_reads e)
      | inr e ↦ inr (ap as_reads e)
    ]
    sent_cases (writes s) = elim (WritePending.sent_cases s) [
      | inl e ↦ inl (ap as_writes e)
      | inr e ↦ inr (ap as_writes e)
    ]

    pub send_failed :
        (c : Connection E R W) → complete (packet_sent failed) c ≡ (c, connection_terminated ∷ [])
    unfolding complete
    send_failed (reads s) = ap as_reads (ReadPending.send_failed s)
    send_failed (writes s) = ap as_writes (WritePending.send_failed s)

    pub receive_failed :
        (c : Connection E R W) (n : ℕ)
        → complete (packet_received failed n) c ≡ (c, connection_terminated ∷ [])
    unfolding complete
    receive_failed (reads s) n = ap as_reads (ReadPending.received_failed s n)
    receive_failed (writes s) n = ap as_writes (WritePending.received_failed s n)

    -- A timeout sends once more, with one retry less, or ends the connection.
    abbrev Fires : Connection E R W → Outcome E (Connection E R W) → Type 0
    Fires c (c', effects) =
        ((bytes : Bytes) × (peer : E) × (effects ≡ send_to bytes peer ∷ [])
          × (suc (retries c') ≤ retries c))
        ⊎ (effects ≡ connection_terminated ∷ [])

    pub fired_cases : (c : Connection E R W) → Fires c (complete (send_timeout success) c)
    unfolding complete
    fired_cases (reads s) = elim (Bool-cases (is_pos (pred s.retry_counter))) [
      | inl e ↦
          subst (λ o. Fires (reads s) (as_reads o)) (sym (ReadPending.fired_again s e))
            (inl (s.out_packet_data, s.client_endpoint, refl, one_less s.retry_counter e))
      | inr e ↦
          subst (λ o. Fires (reads s) (as_reads o)) (sym (ReadPending.fired_last s e)) (inr refl)
    ]
    fired_cases (writes s) = elim (Bool-cases (is_pos (pred s.retry_counter))) [
      | inl e ↦
          subst (λ o. Fires (writes s) (as_writes o)) (sym (WritePending.fired_again s e))
            (inl (s.out_packet_data, s.client_endpoint, refl, one_less s.retry_counter e))
      | inr e ↦
          subst (λ o. Fires (writes s) (as_writes o)) (sym (WritePending.fired_last s e)) (inr refl)
    ]

    -- A datagram has no effect, or the connection goes on.
    pub datagram_cases :
        (c : Connection E R W) (sender : E) (bytes : Bytes)
        → ((complete (datagram sender bytes) c).1 ≡ [])
          ⊎ Goes (complete (datagram sender bytes) c).1
    unfolding complete
    datagram_cases (reads s) sender bytes = ReadPending.receive-MayGo s sender bytes
    datagram_cases (writes s) sender bytes = WritePending.receive-MayGo s sender bytes
