-- ===== src/Rpleth/Server/Clients.antt =====
-- modules/rpleth/RplethModule.cpp: the table of clients, what comes from its socket, and the cards
-- that are sent to all of them. An empty message says that a client came or went.
pub mod Tracking
pub mod Reach
use access_control.Prelude.{
  ℕ, zero, suc, ◌*◌, length, ◌%◌, ◌/◌, ◌^◌, Bool, true, false, Bytes, bytes_eq, ◌==◌, is_empty, any,
  List, [], ◌∷◌, ◌++◌, Option, none, some, lookup, insert, erase_key, pos, Failure, aborted, Result,
  ok, err, ◌>>=◌, if◌then◌else◌,
}
use access_control.Credentials.{new_rfid_card, to_raw_int}
use access_control.Rpleth.Ring.{CircularBuffer, new_buffer, write}
use access_control.Rpleth.Protocol.{RplethPacket, server, new_packet, success, encode_command}
use access_control.Rpleth.Server.{RplethModule, NetConfig, ReaderCommand, handle_client_msg}

pub record RplethServer : Type 0 where
  pub state : RplethModule
  pub clients : List (Bytes × CircularBuffer)
  pub failed_clients : List Bytes

abbrev pub is_there : Option CircularBuffer → Bool
is_there none = false
is_there (some cb) = true

abbrev pub client_connected : Bytes → RplethServer → Bool
client_connected identity s = is_there (lookup identity s.clients)

abbrev pub client_failed : Bytes → RplethServer → Bool
client_failed identity s = any (λ c. c == identity) s.failed_clients

-- `std::remove`
abbrev pub remove : Bytes → List Bytes → List Bytes
remove identity [] = []
remove identity (c ∷ cs) = let rest = remove identity cs in if c == identity then rest else c ∷ rest

unfoldable pub came_or_went : Bytes → RplethServer → RplethServer
unfolding new_buffer
came_or_went identity s =
    if client_connected identity s
    then record s {
      clients = erase_key identity s.clients;
      failed_clients =
          if client_failed identity s then remove identity s.failed_clients else s.failed_clients;
    }
    else record s { clients = insert identity (new_buffer 8192) s.clients }

-- The eight bytes of a number, the most significant first.
abbrev network_bytes : ℕ → ℕ → Bytes
network_bytes zero n = []
network_bytes (suc k) n = n / 2 ^ (k * 8) % 256 ∷ network_bytes k n

unfoldable pub card_convert_from_text : Bytes × ℕ → Result Bytes
unfolding new_rfid_card to_raw_int
card_convert_from_text (card_id, bits) =
    new_rfid_card card_id (pos bits) >>= λ card. to_raw_int card >>= λ n. ok (network_bytes 8 n)

abbrev pub badge : Bytes → RplethPacket
badge bytes = record (new_packet server) {
  status = success;
  type = 1;
  command = 4;
  payload = bytes;
  data_len = length bytes;
}

module _ (W : Type 0) (send : Bytes → Bytes → W → Bool × W) where
  -- The clients that failed, and the messages sent.
  abbrev pub publish_to : Bytes → List (Bytes × CircularBuffer) → List Bytes → W → List Bytes × W
  publish_to bytes [] failed w = (failed, w)
  publish_to bytes ((identity, cb) ∷ clients) failed w =
      let (done, after) = send identity bytes w in
      publish_to bytes clients (if done then failed else failed ++ identity ∷ []) after

  abbrev pub publish_cards :
      List (Bytes × ℕ) → List (Bytes × CircularBuffer) → List Bytes → W → Result (List Bytes × W)
  unfolding card_convert_from_text
  publish_cards [] clients failed w = ok (failed, w)
  publish_cards (card ∷ cards) clients failed w = card_convert_from_text card >>= λ bytes.
      let (after, w1) = publish_to (encode_command (badge bytes) 64) clients failed w in
      publish_cards cards clients after w1

  abbrev pub flushed : RplethServer → List Bytes × W → RplethServer × W
  flushed s (failed, w) =
      (record s { failed_clients = failed; state = record s.state { cards_read_stream = [] } }, w)

  unfoldable pub rpleth_publish_card : RplethServer → W → Result (RplethServer × W)
  unfolding publish_cards
  rpleth_publish_card s w =
      publish_cards s.state.cards_read_stream s.clients s.failed_clients w >>= λ x. ok (flushed s x)

  module _ (reader : ReaderCommand → W → W) (network_config : W → NetConfig)
      (push_network_config : NetConfig → W → Bool × W) (restart : W → W)
      (to_string : ℕ → Bytes) where
    abbrev pub SocketResult : Type 0
    SocketResult = Option (Result (RplethServer × List Bytes × W))

    abbrev pub served :
        Bytes
        → RplethServer
        → Option (Bool × CircularBuffer × RplethModule × List Bytes × W)
        → SocketResult
    served identity s none = none
    served identity s (some (alive, cb, m, sent, w)) = some (
        ok (
          record s {
            state = m;
            clients = insert identity cb s.clients;
            failed_clients = if alive then s.failed_clients else s.failed_clients ++ identity ∷ [];
          },
          sent,
          w,
        ))

    -- There is fuel for each byte of the ring.
    abbrev pub with_client : Bytes → Bytes → RplethServer → W → Option CircularBuffer → SocketResult
    unfolding handle_client_msg
    with_client identity content s w none = some (err aborted)
    with_client identity content s w (some cb) =
        let filled = (write cb content).1 in
        served identity s (
          handle_client_msg W reader network_config push_network_config restart to_string send
            (suc filled.to_read) identity filled s.state w)

    unfoldable pub handle_socket : Bytes → Bytes → RplethServer → W → SocketResult
    unfolding came_or_went with_client
    handle_socket identity content s w =
        if is_empty content
        then some (ok (came_or_went identity s, [], w))
        else if client_failed identity s
        then some (ok (s, [], w))
        else with_client identity content s w (lookup identity s.clients)
