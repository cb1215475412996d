-- ===== src/Server/Registry/Failures.antt =====
-- What is left of a connection whose socket does not bind.
use octnet_tftp.Base.{
  ℕ, ◌+◌, ◌≡◌, ap, ◌∙◌, refl, true, inl, inr, some, [], ◌∷◌, ==_self, sym, subst,
}
use mathlib.Core.Bool.{false≢true}
use octnet_tftp.Net.{EndpointOps, open_socket}
use octnet_tftp.Wire.Packet.{PacketFileReq, file_req}
use octnet_tftp.Io.Interface.{ReaderOps, WriterOps}
use octnet_tftp.Io.Manager.{IoManager}
use octnet_tftp.Server.Result.{thrown, system_error, left_by, SocketSetup, bind_fails}
use octnet_tftp.Server.Connection.{Connection, reads, writes, socket_is_open, start_bind_fails}
use octnet_tftp.Server.Connection
use octnet_tftp.Server.Registry.{
  Registry, of_connection, Actions, store, settle, perform, connection_created,
  handle_server_packet,
}
use octnet_tftp.Server.Registry.Requests.{is_request, packet_cases}

module _ {E R W : Type 0} where
  -- The new connection stands in the heap and in the set with an open socket, and has started no
  -- operation that could come to its end.
  abbrev pub IsLeftOpen : Registry E R W → Actions E (Registry E R W) → Type 0
  IsLeftOpen s outcome =
      (c : Connection E R W) × (outcome.0.objects s.next_address ≡ some c)
      × (socket_is_open c ≡ true)
      × (outcome.0.connections ≡ s.next_address ∷ s.connections)
      × (outcome.1 ≡ of_connection s.next_address open_socket ∷ [])

module _ {E R W : Type 0} ⦃readers : ReaderOps R⦄ ⦃writers : WriterOps W⦄
    ⦃endpoints : EndpointOps E⦄ (m : IoManager R W) (setups : ℕ → SocketSetup) where
  created-IsLeftOpen :
      (c : Connection E R W) (s : Registry E R W)
      → setups s.next_address ≡ bind_fails
      → IsLeftOpen s (connection_created m setups c s)
  unfolding connection_created settle perform
  created-IsLeftOpen c s e =
      let (c', started, o) = start_bind_fails m c in
      let f : Connection.start m (setups s.next_address) c
          ≡ thrown system_error (c', open_socket ∷ []) =
        ap (λ b. Connection.start m b c) e ∙ started in
      subst
        (λ r. IsLeftOpen s (
          settle s.next_address (left_by r) (record (store s.next_address c s) {
            next_address = s.next_address + 1;
            connections = s.next_address ∷ s.connections;
          })))
        (sym f) (c', rw (==_self s.next_address), o, refl, refl)

  -- A request whose connection opens a socket that does not bind leaves the connection in the set,
  -- with its socket open, and has started no operation that could come to its end.
  pub request-IsLeftOpen :
      (q : PacketFileReq) (client : E) (s : Registry E R W)
      → is_request (file_req q) ≡ true
      → setups s.next_address ≡ bind_fails
      → IsLeftOpen s (handle_server_packet m setups (file_req q) client s)
  request-IsLeftOpen q client s h e = elim (packet_cases m setups (file_req q) client s) [
    | inl (n, _) ↦ absurd (false≢true (sym n ∙ h))
    | inr (q', _, r) ↦ elim r [
      | inl (_, f) ↦ subst (IsLeftOpen s) (sym f) (created-IsLeftOpen _ s e)
      | inr (_, f) ↦ subst (IsLeftOpen s) (sym f) (created-IsLeftOpen _ s e)
    ]
  ]
