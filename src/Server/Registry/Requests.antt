-- ===== src/Server/Registry/Requests.antt =====
-- Which connection a packet leads to, and what a read request is answered with.
use octnet_tftp.Base.{
  ℕ, ◌+◌, ◌≡◌, ◌⊎◌, refl, sym, ap, subst, inl, inr, Bool, true, false, Bool-cases, some, List, [],
  ◌∷◌, Bytes, ◌==◌, ◌||◌, ==_iff, ==_ne, ==_self, arith,
}
use octnet_tftp.Net.{EndpointOps, open_socket, Outcome}
use octnet_tftp.Wire.Packet.{
  op_rrq, op_wrq, PacketFileReq, Packet, file_req, data_packet, ack, error,
}
use octnet_tftp.Io.Interface.{ReaderOps, ReaderLaws, WriterOps}
use octnet_tftp.Io.Manager.{IoManager}
use octnet_tftp.Server.Result.{returned, left_by, SocketSetup, all_succeed}
use octnet_tftp.Server.ReadConnection
use octnet_tftp.Server.ReadConnection.{ReadConnection, read_connection}
use octnet_tftp.Server.ReadConnection.Transfer.{InFlight, send_block, start-Sent}
use octnet_tftp.Server.WriteConnection.{write_connection}
use octnet_tftp.Server.Connection.{Connection, reads, writes, as_reads, start_reads}
use octnet_tftp.Server.Connection
use octnet_tftp.Server.Registry.{
  Registry, Action, of_connection, Actions, store, settle, perform, connection_created,
  handle_rrq_packet, handle_wrq_packet, handle_server_packet,
}

abbrev pub is_request : Packet → Bool
is_request (file_req q) = (q.op == op_rrq) || (q.op == op_wrq)
is_request other = false

module _ {E R W : Type 0} ⦃readers : ReaderOps R⦄ ⦃writers : WriterOps W⦄
    ⦃endpoints : EndpointOps E⦄ (m : IoManager R W) (setups : ℕ → SocketSetup) where
  -- A read request makes a read connection, and a write request a write connection.
  abbrev pub IsRequest : PacketFileReq → E → Registry E R W → Actions E (Registry E R W) → Type 0
  IsRequest q client s outcome =
      (q.op ≡ op_rrq) × (outcome ≡ connection_created m setups (reads (read_connection q client)) s)
      ⊎ (q.op ≡ op_wrq)
        × (outcome ≡ connection_created m setups (writes (write_connection q client)) s)

  -- What is no request leaves all as it is.
  pub packet_cases :
      (packet : Packet) (client : E) (s : Registry E R W)
      → ((is_request packet ≡ false) × (handle_server_packet m setups packet client s ≡ (s, [])))
        ⊎ ((q : PacketFileReq) × (packet ≡ file_req q)
            × IsRequest q client s (handle_server_packet m setups packet client s))
  unfolding handle_server_packet handle_rrq_packet handle_wrq_packet
  packet_cases (file_req q) client s = elim (Bool-cases (q.op == 1)) [
    | inl e ↦ inr (q, refl, inl ((==_iff _ _).0 e, rw e))
    | inr e ↦ elim (Bool-cases (q.op == 2)) [
      | inl f ↦ inr (q, refl, inr ((==_iff _ _).0 f, rw (e, f)))
      | inr f ↦ inl (rw (e, f), rw (e, f))
    ]
  ]
  packet_cases (data_packet packet) client s = inl (refl, refl)
  packet_cases (ack packet) client s = inl (refl, refl)
  packet_cases (error packet) client s = inl (refl, refl)

  pub read_request_lem :
      (q : PacketFileReq) (client : E) (s : Registry E R W)
      → q.op ≡ op_rrq
      → handle_server_packet m setups (file_req q) client s
        ≡ connection_created m setups (reads (read_connection q client)) s
  unfolding handle_server_packet handle_rrq_packet
  read_request_lem q client s e = let f : (q.op == 1) ≡ true = (==_iff _ _).1 e in rw f

  pub write_request_lem :
      (q : PacketFileReq) (client : E) (s : Registry E R W)
      → q.op ≡ op_wrq
      → handle_server_packet m setups (file_req q) client s
        ≡ connection_created m setups (writes (write_connection q client)) s
  unfolding handle_server_packet handle_wrq_packet
  write_request_lem q client s e =
      let f : (q.op == 1) ≡ false = ==_ne _ _ (λ x. omega (arith, e, x)) in
      let g : (q.op == 2) ≡ true = (==_iff _ _).1 e in rw (f, g)

  pub created_lem :
      (c : Connection E R W) (s : Registry E R W) {outcome : Outcome E (Connection E R W)}
      → Connection.start m (setups s.next_address) c ≡ returned outcome
      → connection_created m setups c s
        ≡ settle s.next_address outcome (record (store s.next_address c s) {
          next_address = s.next_address + 1;
          connections = s.next_address ∷ s.connections;
        })
  unfolding connection_created
  created_lem c s {outcome} e =
      ap
        (λ r. settle s.next_address (left_by r) (record (store s.next_address c s) {
          next_address = s.next_address + 1;
          connections = s.next_address ∷ s.connections;
        }))
        e

  module _ (laws : ReaderLaws R readers) where
    -- The new connection stands in the heap and in the set, and has sent the first block of `c`.
    abbrev pub Answers :
        E → Bytes → Registry E R W → List (Action E) → Actions E (Registry E R W) → Type 0
    Answers client c s later outcome =
        (connection : ReadConnection E R) × InFlight laws client c 0 connection
        × (outcome.0.objects s.next_address ≡ some (reads connection))
        × (outcome.0.connections ≡ s.next_address ∷ s.connections)
        × (outcome.1
            ≡ of_connection s.next_address open_socket
              ∷ of_connection s.next_address (send_block laws client c 0)
              ∷ later)

    settled-Answers :
        (client : E) (c : Bytes) (s s' : Registry E R W) (connection : ReadConnection E R)
        → s'.connections ≡ s.next_address ∷ s.connections
        → InFlight laws client c 0 connection
        → Answers client c s [] (
            settle s.next_address
              (reads connection, open_socket ∷ send_block laws client c 0 ∷ [])
              s')
    unfolding settle perform
    settled-Answers client c s s' connection e f =
        (connection, f, rw (==_self s.next_address), e, refl)

    pub created-Answers :
        (q : PacketFileReq) (client : E) (r : R) (s : Registry E R W)
        → m.create_reader q.filename q.mode ≡ some r
        → readers.is_open r ≡ true
        → laws.broken r ≡ false
        → setups s.next_address ≡ all_succeed
        → Answers client
            (laws.contents r)
            s
            []
            (connection_created m setups (reads (read_connection q client)) s)
    created-Answers q client r s e o b h =
        let (connection, started, f) = start-Sent laws m q client r e o b in
        let started_here : ReadConnection.start m (setups s.next_address) (read_connection q client)
            ≡ returned (connection, open_socket ∷ send_block laws client (laws.contents r) 0 ∷ []) =
          rw h started in
        subst (Answers client (laws.contents r) s [])
          (sym (
            created_lem (reads (read_connection q client)) s
              (start_reads m (setups s.next_address) (read_connection q client) started_here)))
          (settled-Answers client (laws.contents r) s _ connection refl f)
