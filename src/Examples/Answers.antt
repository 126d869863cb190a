-- ===== src/Examples/Answers.antt =====
-- A client that asks for the state of DHCP, then for another answer.
use access_control.Prelude.{
  ℕ, suc, Bool, true, false, Bytes, codes, [], ◌∷◌, ◌≡◌, refl, some, arith,
}
use access_control.Rpleth.Ring.{CircularBuffer, window}
use access_control.Rpleth.Ring.Contents.{IsValid, contents}
use access_control.Rpleth.Protocol.{RplethPacket, client, encode_command, checksum}
use access_control.Rpleth.Server.{RplethModule, NetConfig, ReaderCommand, handle_client_msg}
use access_control.Rpleth.Server.Clients.{RplethServer, handle_socket, came_or_went}
use access_control.Rpleth.Server.Clients.Tracking.{IsTracked, AllTracked, handle_socket-AllTracked}
use access_control.Rpleth.Server.Clients.Reach.{Reach, start, socket, started, Reach-IsTracked}
use access_control.Rpleth.Server.Answers.{Outcome, handle_client_msg_ends, dhcp_unanswered}

-- The world counts what was asked of the reader and of the kernel.
abbrev reader : ReaderCommand → ℕ → ℕ
reader c w = suc w

abbrev network : ℕ → NetConfig
network w = record {
  enabled = some true;
  dhcp = some true;
  default_ip = codes "10.0.0.2";
  netmask = codes "255.0.0.0";
  gateway = codes "10.0.0.1";
}

abbrev push : NetConfig → ℕ → Bool × ℕ
push c w = (true, suc w)

abbrev digits : ℕ → Bytes
digits n = codes "1"

abbrev send : Bytes → Bytes → ℕ → Bool × ℕ
send id bytes w = (true, suc w)

abbrev dhcp_question : RplethPacket
dhcp_question = record {
  status = 0;
  type = 0;
  command = 1;
  data_len = 0;
  payload = [];
  sum = 0;
  is_good = false;
  sender = client;
}

abbrev asking : CircularBuffer
asking = record { buffer = 0 ∷ 1 ∷ 0 ∷ 1 ∷ 0 ∷ 0 ∷ []; size = 6; r_idx = 0; w_idx = 4; to_read = 4 }

asking-IsValid : IsValid asking
asking-IsValid = record {
  not_empty = omega arith;
  representable = omega arith;
  allocated = refl;
  r_inside = omega arith;
  w_inside = omega arith;
  filled = omega arith;
  in_step = refl;
}

asking_bytes : contents asking ≡ encode_command dhcp_question 8192
unfolding window encode_command checksum
asking_bytes = refl

abbrev fresh : RplethModule
fresh = record { stream_mode = false; cards_pushed = []; cards_read = []; cards_read_stream = [] }

handle_client_msg_ends_example :
    (r : Outcome ℕ reader network push suc digits send) × (handle_client_msg ℕ reader network push
        suc digits send 5
        (codes "peer")
        asking
        fresh
        0
      ≡ some r)
handle_client_msg_ends_example =
    handle_client_msg_ends ℕ reader network push suc digits send 5 (codes "peer") asking fresh 0
      (omega arith)

dhcp_unanswered_example :
    (left : CircularBuffer) × (handle_client_msg ℕ reader network push suc digits send 1
        (codes "peer")
        asking
        fresh
        0
      ≡ some (true, left, fresh, [], 0))
    × (contents left ≡ [])
dhcp_unanswered_example =
    dhcp_unanswered ℕ reader network push suc digits send 0 8192 (codes "peer") dhcp_question asking
      fresh 0 (record { known_type = omega arith; exact_length = refl }) refl refl refl
      (omega arith) asking-IsValid asking_bytes

abbrev greeted : RplethServer
greeted = came_or_went (codes "peer") (started true)

greeted_reached : Reach ℕ send reader network push suc digits greeted 0
unfolding handle_socket
greeted_reached = socket (codes "peer") [] (start true 0) refl

Reach-IsTracked_example : IsTracked greeted
Reach-IsTracked_example = Reach-IsTracked ℕ send reader network push suc digits greeted_reached

-- A client sends a byte while another one failed.
abbrev serving : RplethServer
serving = record {
  state = fresh;
  clients = (codes "peer", asking) ∷ (codes "other", asking) ∷ [];
  failed_clients = codes "other" ∷ [];
}

serving-IsTracked : IsTracked serving
serving-IsTracked id h = ground arith

handle_socket-AllTracked_example :
    AllTracked ℕ send reader network push suc digits
      (codes "peer")
      serving
      (handle_socket ℕ send reader network push suc digits (codes "peer") (1 ∷ []) serving 0)
handle_socket-AllTracked_example =
    handle_socket-AllTracked ℕ send reader network push suc digits (codes "peer") (1 ∷ []) serving 0
      serving-IsTracked
