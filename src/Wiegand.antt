-- ===== src/Wiegand.antt =====
-- modules/wiegand/WiegandReaderImpl.cpp: the bits that come in on the two data lines, and the read
-- strategy that is asked at each timeout. Leds, the buzzer and the sockets are not modelled.
pub mod Bits
pub mod Simple
pub mod PinNBits
pub mod PinBuffered
pub mod CardAndPin
pub mod CardTurns
pub mod CardThenPin
pub mod Autodetect
pub mod Detected
pub mod Pulses
pub mod Card
pub mod Keys
use access_control.Prelude.{
  ℕ, ◌+◌, ◌-◌, ◌/◌, ◌%◌, ◌^◌, Bytes, Bool, List, [], ◌∷◌, set, get_or, replicate, bit_or, bit_and,
  ltb, if◌then◌else◌,
}

pub record Reader : Type 0 where
  pub buffer : List ℕ
  pub counter : ℕ
  pub name : Bytes

-- The topic of a message of the bus: one of the two data lines, or another the reader is told of.
pub data Pulse : Type 0 where
  high low other : Pulse

-- `buffer_[counter_ / 8] |= (1 << (7 - counter_ % 8))`, or `&= ~(1 << ...)`, on a byte.
unfoldable pub mark : Pulse → ℕ → ℕ → ℕ
mark high shift byte = bit_or byte (2 ^ shift)
mark low shift byte = bit_and byte (255 - 2 ^ shift)
mark other shift byte = byte

unfoldable pub handle_bus_msg : Reader → Pulse → Reader
unfolding mark
handle_bus_msg r p =
    let at = r.counter / 8 in
    if ltb r.counter 128
    then record r {
      buffer = set r.buffer at (mark p (7 - r.counter % 8) (get_or r.buffer at 0));
      counter = r.counter + 1;
    }
    else record r { counter = 0 }

unfoldable pub read_reset : Reader → Reader
read_reset r = record r { buffer = replicate 16 0; counter = 0 }

-- The messages of the bus until the next timeout.
unfoldable pub handle_all : Reader → List Pulse → Reader
unfolding handle_bus_msg
handle_all r [] = r
handle_all r (p ∷ ps) = handle_all (handle_bus_msg r p) ps
