-- ===== src/Rpleth/Protocol/RoundTrip.antt =====
-- Decoding what was encoded, and waiting for what is incomplete.
use access_control.Prelude.{
  ℕ, zero, suc, ◌+◌, ◌≤◌, ◌<◌, ◌≡◌, refl, sym, ap, ◌∙◌, true, false, List, [], ◌∷◌, ◌++◌, length,
  length-append, get_or, drop, ltb, append_assoc, arith, inl, inr, nat_beq_iff, ◌⊎◌,
}
use access_control.Rpleth.Ring.{CircularBuffer, byte_at, fast_forward}
use access_control.Rpleth.Ring.Contents.{IsValid, contents}
use access_control.Rpleth.Ring.Reads.{byte_at-contents, length-contents, fast_forward_drops}
use access_control.Rpleth.Protocol.{
  RplethPacket, Sender, client, server, new_packet, max_type, success, checksum, copy_data, judge,
  parse_complete, encode_sender, decode_from, decode_command, data_bytes, encode_command,
}

-- A packet whose fields fit together, as a sender builds it.
pub record IsWellFormed (p : RplethPacket) : Type 0 where
  pub known_type : p.type < max_type
  pub exact_length : length p.payload ≡ p.data_len

data_bytes-all : (n : ℕ) (bytes : List ℕ) → length bytes ≡ n → data_bytes n bytes ≡ bytes
unfolding data_bytes
data_bytes-all zero [] h = refl
data_bytes-all zero (b ∷ bytes) h = absurd (omega arith)
data_bytes-all (suc n) [] h = absurd (omega arith)
data_bytes-all (suc n) (b ∷ bytes) h = ap (◌∷◌ b) (data_bytes-all n bytes (omega arith))

get_or-append_right : (xs ys : List ℕ) (k : ℕ) → get_or (xs ++ ys) (length xs + k) 0 ≡ get_or ys k 0
get_or-append_right [] ys k = let same : 0 + k ≡ k = omega arith in rw same refl
get_or-append_right (x ∷ xs) ys k =
    let on : suc (length xs) + k ≡ suc (length xs + k) = omega arith in
    rw on (get_or-append_right xs ys k)

drop-append : (xs ys : List ℕ) → drop (length xs) (xs ++ ys) ≡ ys
drop-append [] ys = refl
drop-append (x ∷ xs) ys = drop-append xs ys

-- The byte behind `front`.
byte_after :
    (cb : CircularBuffer) (front rest : List ℕ) (b : ℕ)
    → contents cb ≡ front ++ (b ∷ rest)
    → byte_at cb (length front) ≡ b
byte_after cb front rest b e =
    let total = length-append front (b ∷ rest) in
    let count = ap length e in
    let inside : length front < cb.to_read = omega (arith, length-contents cb) in
    let last : length front + 0 ≡ length front = omega arith in
    byte_at-contents cb (length front) inside
    ∙ rw (e, ← last) (get_or-append_right front (b ∷ rest) 0)

copy_data-contents :
    (cb : CircularBuffer) (front bytes rest : List ℕ)
    → contents cb ≡ front ++ (bytes ++ rest)
    → copy_data cb (length front) (length bytes) ≡ bytes
unfolding copy_data
copy_data-contents cb front [] rest e = refl
copy_data-contents cb front (b ∷ bytes) rest e =
    let here = byte_after cb front (bytes ++ rest) b e in
    let longer : length (front ++ (b ∷ [])) ≡ length front + 1 = length-append front (b ∷ []) in
    let tail =
      copy_data-contents cb (front ++ (b ∷ [])) bytes rest
        (e ∙ sym (append_assoc front (b ∷ []) (bytes ++ rest))) in
    rw (here, ← longer, tail) refl

-- A complete packet at the front of the ring is taken off it, byte for byte.
parse_body :
    (s : Sender) (cb : CircularBuffer) (t c sum : ℕ) (bytes rest : List ℕ)
    → contents cb ≡ t ∷ c ∷ length bytes ∷ (bytes ++ (sum ∷ rest))
    → decode_from (new_packet s) cb ≡ (
      judge (record {
        status = success;
        type = t;
        command = c;
        data_len = length bytes;
        payload = bytes;
        sum = sum;
        is_good = true;
        sender = s;
      }),
      fast_forward cb (4 + length bytes),
    )
unfolding decode_from parse_complete new_packet
parse_body s cb t c sum bytes rest e =
    let n = length bytes in
    let n_at = byte_after cb (t ∷ c ∷ []) (bytes ++ (sum ∷ rest)) n e in
    let t_at = byte_after cb [] (c ∷ n ∷ (bytes ++ (sum ∷ rest))) t e in
    let c_at = byte_after cb (t ∷ []) (n ∷ (bytes ++ (sum ∷ rest))) c e in
    let front = t ∷ c ∷ n ∷ bytes in
    let sum_at : byte_at cb (2 + n + 1) ≡ sum =
      let place : 2 + n + 1 ≡ length front = omega arith in
      rw place (byte_after cb front rest sum e) in
    let all = copy_data-contents cb (t ∷ c ∷ n ∷ []) bytes (sum ∷ rest) e in
    let count : length (contents cb) ≡ 3 + (n + suc (length rest)) =
      ap length e ∙ omega (arith, length-append bytes (sum ∷ rest)) in
    let enough : ltb cb.to_read 4 ≡ false = ground (arith, length-contents cb) in
    let complete : ltb cb.to_read (n + 4) ≡ false = ground (arith, length-contents cb) in
    rw (n_at, enough, complete) (rw (t_at, c_at, sum_at, all) refl)

abbrev body_of : RplethPacket → List ℕ → List ℕ
body_of p rest = p.type ∷ p.command ∷ p.data_len ∷ (p.payload ++ (checksum p ∷ rest))

-- The packet that the other side should see.
abbrev pub received : RplethPacket → RplethPacket
received p = record p { status = success; sum = checksum p; is_good = true }

judge_good : (p : RplethPacket) → p.type < max_type → p.sum ≡ checksum p → judge p ≡ p
unfolding judge
judge_good p known exact = let summed = (nat_beq_iff p.sum (checksum p)).1 exact in ground arith

decode_body :
    (p : RplethPacket) (cb : CircularBuffer) (rest : List ℕ)
    → IsValid cb
    → IsWellFormed p
    → checksum (received p) ≡ checksum p
    → contents cb ≡ body_of p rest
    → let (q, left) = decode_from (new_packet p.sender) cb in
      (q ≡ received p) × IsValid left × (contents left ≡ rest)
decode_body p cb rest v w same e =
    let at_front : contents cb
        ≡ p.type ∷ p.command ∷ length p.payload ∷ (p.payload ++ (checksum p ∷ rest)) =
      e
      ∙ ap (λ n. p.type ∷ p.command ∷ n ∷ (p.payload ++ (checksum p ∷ rest)))
          (sym w.exact_length) in
    let seen : RplethPacket = record (received p) { data_len = length p.payload } in
    let is_seen : seen ≡ received p = λ i. record (received p) { data_len = w.exact_length i } in
    let parsed = parse_body p.sender cb p.type p.command (checksum p) p.payload rest at_front in
    let judged = judge_good seen w.known_type (sym same ∙ ap checksum (sym is_seen)) in
    let (valid, left) = fast_forward_drops cb (4 + length p.payload) v in
    let front = p.type ∷ p.command ∷ length p.payload ∷ (p.payload ++ (checksum p ∷ [])) in
    let whole : contents cb ≡ front ++ rest =
      at_front
      ∙ ap (λ l. p.type ∷ p.command ∷ length p.payload ∷ l)
          (sym (append_assoc p.payload (checksum p ∷ []) rest)) in
    let count : length front ≡ 4 + length p.payload =
      omega (arith, length-append p.payload (checksum p ∷ [])) in
    rw (parsed, judged) (is_seen, valid, left ∙ rw (← count, whole) (drop-append front rest))

encode_command-body :
    (p : RplethPacket) (size : ℕ)
    → IsWellFormed p
    → p.data_len + 5 ≤ size
    → (rest : List ℕ)
    → encode_command p size ++ rest ≡ encode_sender p.sender p.status (body_of p rest)
unfolding encode_command
encode_command-body p size w fits rest =
    let roomy : ltb size (p.data_len + 5) ≡ false = ground arith in
    let all = data_bytes-all p.data_len p.payload w.exact_length in
    rw (roomy, all) (by_sender p.sender)
  where
    by_sender :
        (s : Sender)
        → encode_sender s p.status
              (p.type ∷ p.command ∷ p.data_len ∷ (p.payload ++ (checksum p ∷ [])))
            ++ rest
          ≡ encode_sender s p.status (body_of p rest)
    by_sender client =
        ap (λ l. p.type ∷ p.command ∷ p.data_len ∷ l)
          (append_assoc p.payload (checksum p ∷ []) rest)
    by_sender server =
        ap (λ l. p.status ∷ p.type ∷ p.command ∷ p.data_len ∷ l)
          (append_assoc p.payload (checksum p ∷ []) rest)

checksum-received :
    (p : RplethPacket)
    → (p.sender ≡ client) ⊎ (p.status ≡ success)
    → checksum (received p) ≡ checksum p
unfolding checksum
checksum-received p h = ground arith

-- A client's packet whose type is known and whose length is exact, once encoded at the front of a
-- valid ring, is decoded to itself with status Success, and exactly its bytes leave the ring.
pub decode-encode_client :
    (p : RplethPacket) (size : ℕ) (cb : CircularBuffer) (rest : List ℕ)
    → IsWellFormed p
    → p.sender ≡ client
    → p.data_len + 5 ≤ size
    → IsValid cb
    → contents cb ≡ encode_command p size ++ rest
    → let (q, left) = decode_command cb false in
      (q ≡ received p) × IsValid left × (contents left ≡ rest)
unfolding decode_command
decode-encode_client p size cb rest w from fits v e =
    let bytes : contents cb ≡ body_of p rest =
      e ∙ encode_command-body p size w fits rest ∙ rw from refl in
    rw (← from) (decode_body p cb rest v w (checksum-received p (inl from)) bytes)

-- The same holds of a server's packet with status Success, decoded as coming from a server.
pub decode-encode_server :
    (p : RplethPacket) (size : ℕ) (cb : CircularBuffer) (rest : List ℕ)
    → IsWellFormed p
    → p.sender ≡ server
    → p.status ≡ success
    → p.data_len + 5 ≤ size
    → IsValid cb
    → contents cb ≡ encode_command p size ++ rest
    → let (q, left) = decode_command cb true in
      (q ≡ received p) × IsValid left × (contents left ≡ rest)
unfolding decode_command
decode-encode_server p size cb rest w from fine fits v e =
    let bytes : contents cb ≡ p.status ∷ body_of p rest =
      e ∙ encode_command-body p size w fits rest ∙ rw from refl in
    let (valid, left) = fast_forward_drops cb 1 v in
    rw (← from) (
      decode_body p (fast_forward cb 1) rest valid w (checksum-received p (inr fine))
        (left ∙ rw bytes refl))

-- An incomplete packet is left in the ring, and reported as not good.
pub decode_incomplete :
    (cb : CircularBuffer)
    → (cb.to_read < 4) ⊎ (cb.to_read < byte_at cb 2 + 4)
    → ((decode_command cb false).0.is_good ≡ false) × ((decode_command cb false).1 ≡ cb)
unfolding decode_command
decode_incomplete cb h = ground arith
