-- ===== src/Examples/Frames.antt =====
-- A packet of one byte on a ring of sixteen.
use access_control.Prelude.{ℕ, List, ◌≡◌, refl, false, [], ◌∷◌, ◌++◌, arith}
use access_control.Rpleth.Ring.{CircularBuffer, write, window}
use access_control.Rpleth.Ring.Contents.{IsValid, contents, write_appends}
use access_control.Rpleth.Protocol.{
  RplethPacket, client, server, encode_command, decode_command, checksum,
}
use access_control.Rpleth.Protocol.RoundTrip.{IsWellFormed, received, decode-encode_client}

abbrev loaded : List ℕ → ℕ → CircularBuffer
loaded bytes n = record { buffer = bytes; size = 8; r_idx = 0; w_idx = n; to_read = n }

abbrev asked : CircularBuffer
asked = loaded (1 ∷ 2 ∷ 1 ∷ 7 ∷ 5 ∷ 9 ∷ 0 ∷ 0 ∷ []) 6

abbrev told : CircularBuffer
told = loaded (0 ∷ 1 ∷ 2 ∷ 1 ∷ 7 ∷ 5 ∷ 9 ∷ 0 ∷ []) 7

abbrev short : CircularBuffer
short = loaded (1 ∷ 2 ∷ 1 ∷ 7 ∷ 0 ∷ 0 ∷ 0 ∷ 0 ∷ []) 3

asked-IsValid : IsValid asked
asked-IsValid = record {
  not_empty = omega arith;
  representable = omega arith;
  allocated = refl;
  r_inside = omega arith;
  w_inside = omega arith;
  filled = omega arith;
  in_step = refl;
}

told-IsValid : IsValid told
told-IsValid = record {
  not_empty = omega arith;
  representable = omega arith;
  allocated = refl;
  r_inside = omega arith;
  w_inside = omega arith;
  filled = omega arith;
  in_step = refl;
}

abbrev question : RplethPacket
question = record {
  status = 0;
  type = 1;
  command = 2;
  data_len = 1;
  payload = 7 ∷ [];
  sum = 0;
  is_good = false;
  sender = client;
}

abbrev reply : RplethPacket
reply = record question { sender = server }

question_formed : IsWellFormed question
question_formed = record { known_type = omega arith; exact_length = refl }

reply_formed : IsWellFormed reply
reply_formed = record { known_type = omega arith; exact_length = refl }

asked_bytes : contents asked ≡ encode_command question 64 ++ (9 ∷ [])
unfolding window encode_command checksum
asked_bytes = refl

told_bytes : contents told ≡ encode_command reply 64 ++ (9 ∷ [])
unfolding window encode_command checksum
told_bytes = refl

write_appends_example :
    ((write asked (4 ∷ 4 ∷ [])).0 ≡ 2)
    × IsValid (write asked (4 ∷ 4 ∷ [])).1
    × (contents (write asked (4 ∷ 4 ∷ [])).1 ≡ contents asked ++ (4 ∷ 4 ∷ []))
write_appends_example = write_appends asked (4 ∷ 4 ∷ []) asked-IsValid (omega arith) (omega arith)

decode-encode_client_example :
    let (q, left) = decode_command asked false in
    (q ≡ received question) × IsValid left × (contents left ≡ 9 ∷ [])
decode-encode_client_example =
    decode-encode_client question 64 asked (9 ∷ []) question_formed refl (omega arith) asked-IsValid
      asked_bytes
