-- ===== src/Rpleth/Server/Clients/Reach.antt =====
-- The states that the module reaches by what comes from its socket and from its reader.
use access_control.Prelude.{◌≡◌, Bool, Bytes, List, [], some, ok, ℕ, subst}
use access_control.Rpleth.Server.{NetConfig, ReaderCommand, handle_wiegand_event}
use access_control.Rpleth.Server.Clients.{RplethServer, handle_socket, rpleth_publish_card}
use access_control.Rpleth.Server.Clients.Tracking.{
  IsTracked, AllTracked, handle_socket-AllTracked, rpleth_publish_card-IsTracked,
}

abbrev pub started : Bool → RplethServer
started stream_mode = record {
  state = record {
    stream_mode = stream_mode;
    cards_pushed = [];
    cards_read = [];
    cards_read_stream = [];
  };
  clients = [];
  failed_clients = [];
}

abbrev pub with_card : Bytes → ℕ → RplethServer → RplethServer
unfolding handle_wiegand_event
with_card card_id bits s = record s { state = handle_wiegand_event card_id bits s.state }

module _ (W : Type 0) (send : Bytes → Bytes → W → Bool × W) (reader : ReaderCommand → W → W)
    (network_config : W → NetConfig) (push_network_config : NetConfig → W → Bool × W)
    (restart : W → W) (to_string : ℕ → Bytes) where
  pub data Reach : RplethServer → W → Type 0 where
    start : (stream_mode : Bool) (w : W) → Reach (started stream_mode) w
    socket :
        {s after : RplethServer} {sent : List Bytes} {w w1 : W} (identity content : Bytes)
        → Reach s w
        → handle_socket W send reader network_config push_network_config restart to_string identity
            content s w
          ≡ some (ok (after, sent, w1))
        → Reach after w1
    card :
        {s after : RplethServer} {w w1 : W} (card_id : Bytes) (bits : ℕ)
        → Reach s w
        → rpleth_publish_card W send (with_card card_id bits s) w ≡ ok (after, w1)
        → Reach after w1

  -- In every state that the module reaches, the clients that are marked as failed are connected.
  pub Reach-IsTracked : {s : RplethServer} {w : W} → Reach s w → IsTracked s
  unfolding with_card
  Reach-IsTracked (start stream_mode w) = λ id h. cc
  Reach-IsTracked (socket {s} {after} {sent} {w} {w1} identity content before e) =
      subst
        (AllTracked W send reader network_config push_network_config restart to_string identity s) e
        (handle_socket-AllTracked W send reader network_config push_network_config restart to_string
          identity content s w (Reach-IsTracked before))
  Reach-IsTracked (card {s} {after} {w} {w1} card_id bits before e) =
      rpleth_publish_card-IsTracked W send (with_card card_id bits s) after w w1
        (Reach-IsTracked before) e
