-- ===== src/Wiegand/Simple.antt =====
-- modules/wiegand/strategies/SimpleWiegandStrategy.cpp, and WiegandReaderImpl::timeout with it.
use access_control.Prelude.{
  ℕ, zero, suc, ◌+◌, ◌-◌, ◌/◌, Bytes, Bool, true, false, List, [], ◌∷◌, ◌++◌, codes, is_empty, not,
  Option, none, some, nat_eq, ◌==◌, pos, Result, ok, guard, ◌>>=◌, ◌>>◌, aborted, if◌then◌else◌,
}
use access_control.Credentials.Hex.{join_hex}
use access_control.Access.Source.{Message, text, number, source, simple_wiegand}
use access_control.Wiegand.{Reader, read_reset}

pub record SimpleWiegandStrategy : Type 0 where
  pub ready : Bool
  pub nb_bits : ℕ
  pub card_id : Bytes

unfoldable pub new_simple : SimpleWiegandStrategy
new_simple = record { ready = false; nb_bits = 0; card_id = [] }

-- `reader_->buffer()[i]` for each `i` below `size`.
unfoldable pub first_bytes : ℕ → List ℕ → List ℕ
first_bytes zero buf = []
first_bytes (suc n) [] = []
first_bytes (suc n) (b ∷ buf) = b ∷ first_bytes n buf

unfoldable pub timeout : Reader → SimpleWiegandStrategy → SimpleWiegandStrategy
unfolding first_bytes join_hex
timeout r s = if r.counter == 0 then s else record {
  ready = true;
  nb_bits = r.counter;
  card_id = join_hex (first_bytes ((r.counter - 1) / 8 + 1) r.buffer);
}

-- The two assertions, and the message sent.
unfoldable pub signal : Reader → SimpleWiegandStrategy → Result Message
signal r s = do
  guard s.ready aborted
  guard (not (is_empty s.card_id)) aborted
  ok (
      text (codes "S_" ++ r.name)
      ∷ source simple_wiegand
      ∷ text s.card_id
      ∷ number (pos s.nb_bits)
      ∷ [])

-- The strategy and the reader that `reset` leaves.
unfoldable pub reset : Reader → SimpleWiegandStrategy → Reader × SimpleWiegandStrategy
unfolding read_reset new_simple
reset r s = (read_reset r, new_simple)

-- `WiegandReaderImpl::timeout` with this strategy: the message sent, if any, and what is left.
unfoldable pub reader_timeout :
    Reader → SimpleWiegandStrategy → Result (Option Message × Reader × SimpleWiegandStrategy)
unfolding timeout signal reset
reader_timeout r s =
    let t = timeout r s in
    if not t.ready
    then ok (none, r, t)
    else do msg ← signal r t; let left = reset r t; ok (some msg, left.0, left.1)
