-- ===== src/Rpleth/Server.antt =====
-- modules/rpleth/RplethModule.cpp: the clients of the server, what is answered to their packets, and
-- the lists of cards. The reader's led and buzzer, the network configuration in the kernel, its
-- restart and the socket are parameters, and so is `std::to_string`; the configuration may lack a
-- member. A message to a client carries its bytes.
pub mod Answers
pub mod Clients
use access_control.Prelude.{
  ℕ, zero, suc, ◌+◌, ◌%◌, ◌-◌, Bool, true, false, not, ◌&&◌, ◌||◌, Bytes, bytes_eq, nat_eq, ◌==◌,
  ltb, is_empty, codes, List, [], ◌∷◌, ◌++◌, any, length, get_or, Option, none, some, lookup,
  insert, erase_key, Failure, runtime_error, undefined_behaviour, Result, ok, err, enforce, ◌>>=◌,
  if◌then◌else◌,
}
use access_control.Credentials.{remove_colons}
use access_control.Rpleth.Ring.{CircularBuffer, write}
use access_control.Rpleth.Protocol.{
  RplethPacket, Sender, server, new_packet, success, decode_command, encode_command,
}

pub record RplethModule : Type 0 where
  pub stream_mode : Bool
  pub cards_pushed : List Bytes
  pub cards_read : List Bytes
  pub cards_read_stream : List (Bytes × ℕ)

pub record NetConfig : Type 0 where
  pub enabled : Option Bool
  pub dhcp : Option Bool
  pub default_ip : Bytes
  pub netmask : Bytes
  pub gateway : Bytes

pub data ReaderCommand : Type 0 where
  buzzer_on buzzer_off green_led_on green_led_off : ReaderCommand

-- `std::list::unique`: of equal neighbours the first stays.
abbrev unique_after : Bytes → List Bytes → List Bytes
unique_after last [] = []
unique_after last (c ∷ cs) =
    let rest = unique_after c cs in
    let skip = unique_after last cs in if last == c then skip else c ∷ rest

abbrev pub unique : List Bytes → List Bytes
unique [] = []
unique (c ∷ cs) = c ∷ unique_after c cs

abbrev pub contains : Bytes → List Bytes → Bool
contains card cards = any (λ c. c == card) cards

-- A card that was read; only cards that were pushed are kept in `cards_read_`.
unfoldable pub handle_wiegand_event : Bytes → ℕ → RplethModule → RplethModule
handle_wiegand_event card_id bits m =
    let card = remove_colons card_id in
    record m {
      cards_read_stream =
          if m.stream_mode
          then m.cards_read_stream ++ (card_id, bits) ∷ []
          else m.cards_read_stream;
      cards_read =
          unique (if contains card m.cards_pushed then m.cards_read ++ card ∷ [] else m.cards_read);
    }

-- The texts between the pipes; `fresh` where the last one has ended.
abbrev pub cards_of : Bytes → Bool → Bytes → List Bytes
cards_of card fresh [] = if fresh then [] else card ∷ []
cards_of card fresh (b ∷ bs) =
    let next = cards_of [] true bs in
    let more = cards_of (card ++ b ∷ []) false bs in if b == b'|' then card ∷ next else more

unfoldable pub rpleth_send_cards : RplethPacket → RplethModule → RplethModule
rpleth_send_cards p m = record m {
  cards_pushed = unique (cards_of [] true p.payload);
  cards_read = [];
}

abbrev absent : List Bytes → List Bytes → List Bytes
absent read [] = []
absent read (c ∷ cs) = let rest = absent read cs in if contains c read then rest else c ∷ rest

abbrev pub piped : List Bytes → Bytes
piped [] = []
piped (c ∷ cs) = remove_colons c ++ b'|' ∷ piped cs

abbrev pub asked_cards : RplethPacket → RplethModule → List Bytes
asked_cards p m =
    if get_or p.payload 0 0 == 1 then m.cards_read else absent m.cards_read m.cards_pushed

-- The length goes into a byte.
unfoldable pub rpleth_receive_cards : RplethPacket → RplethModule → RplethPacket
rpleth_receive_cards p m =
    let bytes = piped (asked_cards p m) in
    if length p.payload == 1 then record p { payload = bytes; data_len = length bytes % 256 } else p

module _ (W : Type 0) (reader : ReaderCommand → W → W) (network_config : W → NetConfig)
    (push_network_config : NetConfig → W → Bool × W) (restart : W → W) (to_string : ℕ → Bytes) where
  -- The first data byte says on or off.
  abbrev switch : List ℕ → ReaderCommand → ReaderCommand → W → W
  switch [] yes_command no_command w = w
  switch (b ∷ bs) yes_command no_command w =
      if b == 1 then reader yes_command w else if b == 0 then reader no_command w else w

  abbrev blank : ℕ → RplethPacket
  blank command = record (new_packet server) { command = command }

  abbrev dhcp_known : NetConfig → Result RplethPacket
  dhcp_known c = enforce c.dhcp runtime_error >>= λ on.
      ok (record (blank 1) { status = success; payload = (if on then 1 else 0) ∷ []; data_len = 1 })

  -- An exception while reading the state is swallowed there.
  abbrev swallowed : Result RplethPacket → RplethPacket
  swallowed (ok p) = p
  swallowed (err e) = blank 1

  unfoldable pub get_dhcp_state : W → RplethPacket
  unfolding new_packet
  get_dhcp_state w =
      let c = network_config w in
      swallowed (
        enforce c.enabled runtime_error >>= λ on.
        if on then dhcp_known c else ok (record (blank 1) { status = 1 }))

  abbrev pushed : ℕ → Bool × W → RplethPacket × W
  pushed command (done, w) = (record (blank command) { status = if done then success else 1 }, w)

  -- A setter of the network: the data it needs, and the configuration that it leaves.
  abbrev set_network : ℕ → ℕ → RplethPacket → NetConfig → W → Result (RplethPacket × W)
  set_network command needed p changed w =
      if ltb p.data_len needed
      then ok (record (blank command) { status = 1 }, w)
      else (enforce (network_config w).enabled runtime_error >>= λ on. ok (
          if on
          then pushed command (push_network_config changed w)
          else (record (blank command) { status = 1 }, w)))

  abbrev dotted : List ℕ → Bytes
  dotted bytes =
      to_string (get_or bytes 0 0)
      ++ codes "."
      ++ to_string (get_or bytes 1 0)
      ++ codes "."
      ++ to_string (get_or bytes 2 0)
      ++ codes "."
      ++ to_string (get_or bytes 3 0)

  abbrev Answered : Type 0
  Answered = RplethPacket × RplethModule × W

  abbrev with_module : RplethModule → RplethPacket × W → Answered
  with_module m (p, w) = (p, m, w)

  -- Packets of the type Rpleth, and those of the type HID.
  unfoldable pub handle_rpleth : RplethPacket → RplethModule → W → Result Answered
  unfolding get_dhcp_state
  handle_rpleth p m w =
      let r = record p { sender = server } in
      let c = network_config w in
      if p.command == 10
      then ok (record r { status = success }, m, w)
      else if p.command == 1
      then ok (get_dhcp_state w, m, w)
      else if p.command == 2
      then (set_network 2 1 r (record c { dhcp = some (not (get_or r.payload 0 0 == 0)) }) w
          >>= λ x. ok (with_module m x))
      else if p.command == 4
      then (set_network 4 4 r (record c { default_ip = dotted r.payload }) w >>= λ x.
          ok (with_module m x))
      else if p.command == 5
      then (set_network 5 4 r (record c { netmask = dotted r.payload }) w >>= λ x.
          ok (with_module m x))
      else if p.command == 6
      then (set_network 6 4 r (record c { gateway = dotted r.payload }) w >>= λ x.
          ok (with_module m x))
      else if p.command == 9
      then ok (r, m, restart w)
      else ok (record r { status = success }, m, w)

  unfoldable pub handle_hid : RplethPacket → RplethModule → W → Answered
  unfolding rpleth_send_cards rpleth_receive_cards
  handle_hid p m w =
      let r = record p { sender = server } in
      if p.command == 1
      then (r, m, switch p.payload green_led_on green_led_off w)
      else if p.command == 0
      then (r, m, switch p.payload buzzer_on buzzer_off w)
      else if p.command == 13
      then (r, rpleth_send_cards p m, w)
      else if p.command == 14
      then (rpleth_receive_cards r m, m, w)
      else (record r { status = success }, m, w)

  abbrev caught : RplethPacket → RplethModule → W → Result Answered → Answered
  caught p m w (ok x) = x
  caught p m w (err e) = (record p { sender = server; status = 1 }, m, w)

  unfoldable pub handle_client_packet : RplethPacket → RplethModule → W → Answered
  unfolding handle_rpleth handle_hid
  handle_client_packet p m w =
      if p.type == 0
      then caught p m w (handle_rpleth p m w)
      else if p.type == 1
      then handle_hid p m w
      else (record p { sender = server; status = success }, m, w)

  module _ (send : Bytes → Bytes → W → Bool × W) where
    -- The result of a loop over a client's bytes: whether the client still listens, and the messages
    -- sent, the oldest first; `none` where the fuel is spent.
    abbrev Handled : Type 0
    Handled = Option (Bool × CircularBuffer × RplethModule × List Bytes × W)

    abbrev pub sent_first : Bytes → Handled → Handled
    sent_first bytes none = none
    sent_first bytes (some (alive, cb, m, sent, w)) = some (alive, cb, m, bytes ∷ sent, w)

    -- Packets of these two commands get no answer, whatever their type is.
    abbrev pub unanswered : RplethPacket → Bool
    unanswered p = (p.command == 1) || (p.command == 0)

    abbrev pub replied : Bytes → CircularBuffer → Answered → (RplethModule → W → Handled) → Handled
    replied id cb (response, m, w) rest =
        if unanswered response
        then rest m w
        else let bytes = encode_command response 8192 in
          let (done, after) = send id bytes w in
          sent_first bytes (if done then rest m after else some (false, cb, m, [], after))

    -- `while (packet.isGood && buf.toRead())`
    abbrev pub while_bytes : CircularBuffer → RplethModule → W → Handled → Handled
    while_bytes cb m w rest = if cb.to_read == 0 then some (true, cb, m, [], w) else rest

    unfoldable pub decoded :
        Bytes
        → RplethPacket × CircularBuffer
        → RplethModule
        → W
        → (CircularBuffer → RplethModule → W → Handled)
        → Handled
    unfolding handle_client_packet
    decoded id (p, cb) m w rest =
        if p.is_good
        then replied id cb (handle_client_packet p m w)
            (λ m1 w1. while_bytes cb m1 w1 (rest cb m1 w1))
        else some (true, cb, m, [], w)

    unfoldable pub handle_client_msg : ℕ → Bytes → CircularBuffer → RplethModule → W → Handled
    unfolding decoded
    handle_client_msg zero id cb m w = none
    handle_client_msg (suc fuel) id cb m w =
        decoded id (decode_command cb false) m w (λ cb1 m1 w1. handle_client_msg fuel id cb1 m1 w1)
