-- ===== src/Rpleth/Protocol.antt =====
-- modules/rpleth/rplethpacket.{hpp,cpp} and rplethprotocol.{hpp,cpp}. A packet's `data` is read at
-- indexes below `dataLen` only; the model reads 0 where the source would read out of bounds.
pub mod RoundTrip
use access_control.Prelude.{
  ℕ, zero, suc, ◌+◌, Bool, true, false, List, [], ◌∷◌, ◌++◌, length, get_or, ltb, leb, not, nat_eq,
  ◌==◌, bit_xor, if◌then◌else◌,
}
use access_control.Rpleth.Ring.{CircularBuffer, byte_at, fast_forward}

pub data Sender : Type 0 where
  client server : Sender

pub record RplethPacket : Type 0 where
  pub status : ℕ
  pub type : ℕ
  pub command : ℕ
  pub data_len : ℕ
  pub payload : List ℕ
  pub sum : ℕ
  pub is_good : Bool
  pub sender : Sender

unfoldable pub new_packet : Sender → RplethPacket
new_packet s = record {
  status = 0;
  type = 0;
  command = 0;
  data_len = 0;
  payload = [];
  sum = 0;
  is_good = false;
  sender = s;
}

abbrev pub max_type : ℕ
max_type = 3

abbrev pub success : ℕ
success = 0

abbrev bad_checksum : ℕ
bad_checksum = 2

abbrev bad_type : ℕ
bad_type = 5

-- `for (i = 0; i < n; ++i) s ^= data[i];`
unfoldable xor_loop : ℕ → List ℕ → ℕ → ℕ
xor_loop zero bytes s = s
xor_loop (suc n) [] s = xor_loop n [] (bit_xor s 0)
xor_loop (suc n) (b ∷ bytes) s = xor_loop n bytes (bit_xor s b)

abbrev status_part : Sender → ℕ → ℕ
status_part client status = 0
status_part server status = bit_xor 0 status

unfoldable pub checksum : RplethPacket → ℕ
unfolding xor_loop
checksum p =
    xor_loop p.data_len p.payload
      (bit_xor (bit_xor (bit_xor (status_part p.sender p.status) p.type) p.command) p.data_len)

-- `for (i = 0; i < dataLen; ++i) packet.data[i] = buffer[SizeByteIdx + 1 + i];`
unfoldable pub copy_data : CircularBuffer → ℕ → ℕ → List ℕ
copy_data cb at zero = []
copy_data cb at (suc n) = byte_at cb at ∷ copy_data cb (at + 1) n

-- The end of `decodeCommand`: the status of a complete packet.
unfoldable pub judge : RplethPacket → RplethPacket
judge p =
    if leb max_type p.type
    then record p { status = bad_type }
    else if not (p.sum == checksum p)
    then record p { status = bad_checksum }
    else p

-- What `decodeCommand` reads once the bytes are there; the status is Success so far.
unfoldable pub parse_complete : RplethPacket → CircularBuffer → RplethPacket × CircularBuffer
unfolding judge copy_data
parse_complete p cb =
    let n = byte_at cb 2 in
    (
      judge (record p {
        payload = copy_data cb 3 n;
        type = byte_at cb 0;
        command = byte_at cb 1;
        data_len = n;
        sum = byte_at cb (2 + n + 1);
        is_good = true;
      }),
      fast_forward cb (4 + n),
    )

unfoldable pub decode_from : RplethPacket → CircularBuffer → RplethPacket × CircularBuffer
unfolding parse_complete
decode_from p cb =
    if ltb cb.to_read 4
    then (p, cb)
    else if ltb cb.to_read (byte_at cb 2 + 4)
    then (record p { data_len = byte_at cb 2 }, cb)
    else parse_complete p cb

-- `from_server` skips the status byte.
unfoldable pub decode_command : CircularBuffer → Bool → RplethPacket × CircularBuffer
unfolding decode_from new_packet
decode_command cb true = decode_from (new_packet server) (fast_forward cb 1)
decode_command cb false = decode_from (new_packet client) cb

-- `for (i = 0; i < dataLen; ++i) buffer[SizeByteIdx + i + 1] = packet.data[i];`
unfoldable pub data_bytes : ℕ → List ℕ → List ℕ
data_bytes zero bytes = []
data_bytes (suc n) [] = 0 ∷ data_bytes n []
data_bytes (suc n) (b ∷ bytes) = b ∷ data_bytes n bytes

abbrev pub encode_sender : Sender → ℕ → List ℕ → List ℕ
encode_sender client status body = body
encode_sender server status body = status ∷ body

-- The bytes stored in a buffer of `size` bytes; none if it is too small. Their number is returned.
unfoldable pub encode_command : RplethPacket → ℕ → List ℕ
unfolding data_bytes
encode_command p size =
    let body =
      p.type ∷ p.command ∷ p.data_len ∷ (data_bytes p.data_len p.payload ++ (checksum p ∷ [])) in
    if ltb size (p.data_len + 5) then [] else encode_sender p.sender p.status body
