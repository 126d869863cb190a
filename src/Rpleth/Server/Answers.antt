-- ===== src/Rpleth/Server/Answers.antt =====
-- That the loop over a client's bytes ends, and what is left unanswered.
use access_control.Prelude.{
  ℕ, zero, suc, ◌+◌, ◌≡◌, ◌<◌, ◌≤◌, inl, inr, refl, sym, ap, ◌∙◌, Bool, true, false, Bool-cases,
  Bytes, nat_eq, ◌==◌, ltb, ltb→lt, List, length, append-nil, [], ◌∷◌, Option, none, some, arith,
  if◌then◌else◌,
}
use access_control.Rpleth.Ring.{CircularBuffer, byte_at, fast_forward}
use access_control.Rpleth.Protocol.{
  RplethPacket, client, new_packet, decode_command, decode_from, parse_complete, encode_command,
}
use access_control.Rpleth.Protocol.RoundTrip.{decode_incomplete, IsWellFormed, decode-encode_client}
use access_control.Rpleth.Ring.Contents.{IsValid, contents}
use access_control.Rpleth.Ring.Reads.{length-contents}
use access_control.Rpleth.Server.{
  RplethModule, NetConfig, ReaderCommand, handle_client_msg, handle_client_packet, unanswered,
  replied, decoded, get_dhcp_state, handle_rpleth, while_bytes, sent_first,
}

fast_forward-to_read :
    (cb : CircularBuffer) (n : ℕ)
    → 0 < n
    → n ≤ cb.to_read
    → (fast_forward cb n).to_read < cb.to_read
unfolding fast_forward
fast_forward-to_read cb n some_bytes inside =
    let enough : ltb cb.to_read n ≡ false = ground arith in rw enough (omega arith)

-- A packet that was read took bytes off the ring.
decode-to_read :
    (cb : CircularBuffer)
    → (decode_command cb false).0.is_good ≡ true
    → (decode_command cb false).1.to_read < cb.to_read
unfolding decode_command decode_from new_packet parse_complete
decode-to_read cb good = elim (Bool-cases (ltb cb.to_read 4)) [
  | inl short ↦ let (bad, same) = decode_incomplete cb (inl (ltb→lt cb.to_read 4 short)) in cc
  | inr long ↦ elim (Bool-cases (ltb cb.to_read (byte_at cb 2 + 4))) [
    | inl incomplete ↦
        let (bad, same) =
          decode_incomplete cb (inr (ltb→lt cb.to_read (byte_at cb 2 + 4) incomplete)) in
        cc
    | inr complete ↦
        let enough : 4 + byte_at cb 2 ≤ cb.to_read = ground arith in
        rw (long, complete) (fast_forward-to_read cb (4 + byte_at cb 2) (omega arith) enough)
  ]
]

if_true : {A : Type 0} (b : Bool) (x y : A) → b ≡ true → (if b then x else y) ≡ x
if_true true x y e = refl
if_true false x y e = cc

module _ (W : Type 0) (reader : ReaderCommand → W → W) (network_config : W → NetConfig)
    (push_network_config : NetConfig → W → Bool × W) (restart : W → W) (to_string : ℕ → Bytes)
    (send : Bytes → Bytes → W → Bool × W) where
  abbrev pub Outcome : Type 0
  Outcome = Bool × CircularBuffer × RplethModule × List Bytes × W

  abbrev Ends : Option Outcome → Type 0
  Ends h = (r : Outcome) × (h ≡ some r)

  abbrev handle : ℕ → Bytes → CircularBuffer → RplethModule → W → Option Outcome
  handle = handle_client_msg W reader network_config push_network_config restart to_string send

  sent_first-Ends :
      (bytes : Bytes) (h : Option Outcome)
      → Ends h
      → Ends (sent_first W reader network_config push_network_config restart to_string send bytes h)
  sent_first-Ends bytes none (r, e) = cc
  sent_first-Ends bytes (some (alive, cb, m, sent, w)) ends =
      ((alive, cb, m, bytes ∷ sent, w), refl)

  choose-Ends : (b : Bool) (x y : Option Outcome) → Ends x → Ends y → Ends (if b then x else y)
  choose-Ends true x y f g = f
  choose-Ends false x y f g = g

  when-Ends :
      (b : Bool) (x y : Option Outcome) → (b ≡ true → Ends x) → Ends y → Ends (if b then x else y)
  when-Ends true x y f g = f refl
  when-Ends false x y f g = g

  abbrev answered : RplethPacket → RplethModule → W → RplethPacket × RplethModule × W
  answered p m w =
      handle_client_packet W reader network_config push_network_config restart to_string p m w

  replied-Ends :
      (id : Bytes) (cb : CircularBuffer) (p : RplethPacket) (m : RplethModule) (w : W)
      (rest : RplethModule → W → Option Outcome)
      → ((m1 : RplethModule) (w1 : W) → Ends (rest m1 w1))
      → Ends (
          replied W reader network_config push_network_config restart to_string send id cb
            (p, m, w)
            rest)
  replied-Ends id cb p m w rest ends =
      let bytes = encode_command p 8192 in
      let (done, after) = send id bytes w in
      choose-Ends (unanswered W reader network_config push_network_config restart to_string send p)
        (rest m w) _ (ends m w)
        (sent_first-Ends bytes _
          (choose-Ends done (rest m after) _ (ends m after) ((false, cb, m, [], after), refl)))

  while_bytes-Ends :
      (cb : CircularBuffer) (m : RplethModule) (w : W) (rest : Option Outcome)
      → Ends rest
      → Ends (
          while_bytes W reader network_config push_network_config restart to_string send cb m w
            rest)
  while_bytes-Ends cb m w rest ends = elim (Bool-cases (cb.to_read == 0)) [
    | inl over ↦ rw over ((true, cb, m, [], w), refl)
    | inr more ↦ rw more ends
  ]

  decoded-Ends :
      (id : Bytes) (p : RplethPacket) (cb : CircularBuffer) (m : RplethModule) (w : W)
      (rest : CircularBuffer → RplethModule → W → Option Outcome)
      → (p.is_good ≡ true → (m1 : RplethModule) (w1 : W) → Ends (rest cb m1 w1))
      → Ends (
          decoded W reader network_config push_network_config restart to_string send id
            (p, cb)
            m
            w
            rest)
  unfolding decoded
  decoded-Ends id p cb m w rest ends =
      when-Ends p.is_good _ _
        (λ good.
          replied-Ends id cb (answered p m w).0 (answered p m w).1 (answered p m w).2 _
            (λ m2 w2. while_bytes-Ends cb m2 w2 (rest cb m2 w2) (ends good m2 w2)))
        ((true, cb, m, [], w), refl)

  -- The loop over a client's bytes ends, whatever they are and whatever the answers do, when it may
  -- take one turn more than there are bytes.
  pub handle_client_msg_ends :
      (fuel : ℕ) (id : Bytes) (cb : CircularBuffer) (m : RplethModule) (w : W)
      → cb.to_read < fuel
      → (r : Outcome) × (handle_client_msg W reader network_config push_network_config restart
            to_string send fuel id cb m w
          ≡ some r)
  unfolding handle_client_msg
  handle_client_msg_ends zero id cb m w enough = elim enough [ ]
  handle_client_msg_ends (suc fuel) id cb m w enough =
      decoded-Ends id (decode_command cb false).0 (decode_command cb false).1 m w
        (λ cb1 m1 w1. handle fuel id cb1 m1 w1)
        (λ good m1 w1.
          handle_client_msg_ends fuel id (decode_command cb false).1 m1 w1
            (let less = decode-to_read cb good in omega arith))

  dhcp-command :
      (w : W)
      → (get_dhcp_state W reader network_config push_network_config restart to_string w).command ≡ 1
  unfolding get_dhcp_state new_packet
  dhcp-command w = ground arith

  dhcp-answered :
      (p : RplethPacket) (m : RplethModule) (w : W)
      → p.type ≡ 0
      → p.command ≡ 1
      → answered p m w
        ≡ (get_dhcp_state W reader network_config push_network_config restart to_string w, m, w)
  unfolding handle_client_packet handle_rpleth
  dhcp-answered p m w kind command = rw (kind, command) refl

  dhcp-decoded :
      (id : Bytes) (p : RplethPacket) (cb : CircularBuffer) (m : RplethModule) (w : W)
      (rest : CircularBuffer → RplethModule → W → Option Outcome)
      → p.is_good ≡ true
      → p.type ≡ 0
      → p.command ≡ 1
      → cb.to_read ≡ 0
      → decoded W reader network_config push_network_config restart to_string send id
          (p, cb)
          m
          w
          rest
        ≡ some (true, cb, m, [], w)
  unfolding decoded
  dhcp-decoded id p cb m w rest good kind command over =
      let asked = dhcp-answered p m w kind command in
      let is_state : (answered p m w).0.command ≡ 1 =
        ap (λ a. a.0.command) asked ∙ dhcp-command w in
      let silent : unanswered W reader network_config push_network_config restart to_string send
            (answered p m w).0
          ≡ true =
        rw is_state refl in
      if_true p.is_good _ _ good
      ∙ if_true _ _ _ silent
      ∙ if_true (cb.to_read == 0) _ _ (rw over refl)
      ∙ ap (λ a. some (true, cb, a.1, [], a.2)) asked

  -- A client that asks for the state of DHCP, and sends nothing else, gets no answer.
  pub dhcp_unanswered :
      (fuel size : ℕ) (id : Bytes) (p : RplethPacket) (cb : CircularBuffer) (m : RplethModule)
      (w : W)
      → IsWellFormed p
      → p.sender ≡ client
      → p.type ≡ 0
      → p.command ≡ 1
      → p.data_len + 5 ≤ size
      → IsValid cb
      → contents cb ≡ encode_command p size
      → (left : CircularBuffer) × (handle_client_msg W reader network_config push_network_config
            restart to_string send
            (suc fuel)
            id
            cb
            m
            w
          ≡ some (true, left, m, [], w))
        × (contents left ≡ [])
  unfolding handle_client_msg
  dhcp_unanswered fuel size id p cb m w well from kind asks fits v bytes =
      let (good, v1, empty) =
        decode-encode_client p size cb [] well from fits v (bytes ∙ sym (append-nil _)) in
      let left = (decode_command cb false).1 in
      let over : left.to_read ≡ 0 = sym (length-contents left) ∙ ap length empty in
      (
        left,
        dhcp-decoded id (decode_command cb false).0 left m w (λ cb1 m1 w1. handle fuel id cb1 m1 w1)
            (ap (λ q. q.is_good) good) (ap (λ q. q.type) good ∙ kind)
            (ap (λ q. q.command) good ∙ asks) over,
        empty,
      )
