-- ===== src/Doors/Expected.antt =====
-- A door in one of its schedules, down to its pin.
use access_control.Prelude.{
  ℕ, ◌++◌, [], ◌∷◌, ◌≡◌, ◌≢◌, ◌>>=◌, refl, Bool, true, false, Bool-cases, inl, inr, ◌&&◌, Bytes,
  Option, some, Result, ok, err, aborted, if◌then◌else◌,
}
use access_control.Schedule.{Tm, TimePoint}
use access_control.Gpio.{Command, Reply, Direction, output, FGpio, is_on, is_off, turn_on, turn_off}
use access_control.Gpio.Piface as Piface
use access_control.Gpio.Piface.{PfDigitalPin}
use access_control.Gpio.Sysfs as Sysfs
use access_control.Gpio.Sysfs.{SysFsGpioPin}
use access_control.Doors.{
  AuthTarget, is_always_open, is_always_closed, reset_to_expected_state, with_gpio, open_unless,
  close_unless,
}

-- What a door in its schedules is to be: unlocked, locked, or as it was.
abbrev pub expected : Bool → Bool → Bool → Bool
expected true true before = before
expected true false before = true
expected false true before = false
expected false false before = before

module _ (localtime : TimePoint → Tm) where
  module _ {Board : Type 0} (write_bit : Bool → Board → Board) (read_bit : Direction → Board → Bool)
      (read_written : (b : Bool) (h : Board) → read_bit output (write_bit b h) ≡ b) where
    -- A bus with one pin of the board.
    abbrev pub piface_bus :
        ℕ → Bytes → Command → PfDigitalPin Board → Option Reply × PfDigitalPin Board
    piface_bus now name c p =
        let (r, q) = Piface.handle_message write_bit read_bit now c p in (some r, q)

    is_on_piface :
        (now : ℕ) (g : FGpio) (p : PfDigitalPin Board)
        → p.direction ≡ output
        → is_on (PfDigitalPin Board) (piface_bus now) g p ≡ ok (read_bit output p.board, p)
    unfolding is_on Piface.handle_message Piface.read_value
    is_on_piface now g p out = elim (Bool-cases (read_bit output p.board)) [
      | inl lit ↦ simp (out, lit) refl
      | inr dark ↦ simp (out, dark) refl
    ]

    turn_on_piface :
        (now : ℕ) (g : FGpio) (p : PfDigitalPin Board)
        → p.direction ≡ output
        → (h : FGpio) × (q : PfDigitalPin Board) × (turn_on
              (PfDigitalPin Board)
              (piface_bus now)
              now
              g
              p
            ≡ ok (true, h, q))
          × (read_bit output q.board ≡ true)
    unfolding turn_on Piface.handle_message Piface.turn_on Piface.publish_state Piface.read_value
    turn_on_piface now g p out =
        let board = write_bit true p.board in
        let seen = p.published ++ read_bit p.direction board ∷ [] in
        (
          record g { lastupdate = now },
          record p { board = board; published = seen },
          simp out refl,
          read_written true p.board,
        )

    turn_off_piface :
        (now : ℕ) (g : FGpio) (p : PfDigitalPin Board)
        → p.direction ≡ output
        → (h : FGpio) × (q : PfDigitalPin Board) × (turn_off
              (PfDigitalPin Board)
              (piface_bus now)
              now
              g
              p
            ≡ ok (true, h, q))
          × (read_bit output q.board ≡ false)
    unfolding turn_off Piface.handle_message Piface.turn_off Piface.publish_state Piface.read_value
    turn_off_piface now g p out =
        let board = write_bit false p.board in
        let seen = p.published ++ read_bit p.direction board ∷ [] in
        (
          record g { lastupdate = now },
          record p { board = board; published = seen },
          simp out refl,
          read_written false p.board,
        )

    -- A result whose pin has this level.
    abbrev Leads : Bool → Result (AuthTarget × PfDigitalPin Board) → Type 0
    Leads b r =
        (e : AuthTarget) × (q : PfDigitalPin Board) × (r ≡ ok (e, q))
        × (read_bit output q.board ≡ b)

    open_door :
        (tp : ℕ) (d : AuthTarget) (g : FGpio) (p : PfDigitalPin Board) (b : Bool)
        → p.direction ≡ output
        → read_bit output p.board ≡ b
        → Leads true (
            is_on (PfDigitalPin Board) (piface_bus tp) g p
            >>= open_unless localtime (PfDigitalPin Board) (piface_bus tp) tp d g)
    open_door tp d g p true out lit = (d, p, rw (is_on_piface tp g p out, lit) refl, lit)
    open_door tp d g p false out dark =
        let (h, q, e, lit) = turn_on_piface tp g p out in
        (record d { gpio = some h }, q, rw (is_on_piface tp g p out, dark) (rw e refl), lit)

    close_door :
        (tp : ℕ) (d : AuthTarget) (g : FGpio) (p : PfDigitalPin Board) (b : Bool)
        → p.direction ≡ output
        → read_bit output p.board ≡ b
        → Leads false (
            is_off (PfDigitalPin Board) (piface_bus tp) g p
            >>= close_unless localtime (PfDigitalPin Board) (piface_bus tp) tp d g)
    unfolding is_off
    close_door tp d g p false out dark = (d, p, rw (is_on_piface tp g p out, dark) refl, dark)
    close_door tp d g p true out lit =
        let (h, q, e, dark) = turn_off_piface tp g p out in
        (record d { gpio = some h }, q, rw (is_on_piface tp g p out, lit) (rw e refl), dark)

    choose :
        (o c : Bool) (opening closing : Result (AuthTarget × PfDigitalPin Board)) (d : AuthTarget)
        (p : PfDigitalPin Board)
        → Leads true opening
        → Leads false closing
        → Leads
            (expected o c (read_bit output p.board))
            (if o && c then ok (d, p) else if o then opening else if c then closing else ok (d, p))
    choose true true opening closing d p f g = (d, p, refl, refl)
    choose true false opening closing d p f g = f
    choose false true opening closing d p f g = g
    choose false false opening closing d p f g = (d, p, refl, refl)

    through :
        (b : Bool) (d : AuthTarget) (g : FGpio) (p : PfDigitalPin Board) (o : Option FGpio)
        (act : FGpio → Result (AuthTarget × PfDigitalPin Board))
        → o ≡ some g
        → Leads b (act g)
        → Leads b (with_gpio localtime (PfDigitalPin Board) (piface_bus 0) d p act o)
    through b d g p o act has l = rw has l

    -- For a door whose pin is an output of the Piface board, the reset ends, and it leaves the output
    -- on in an always-open schedule and off in an always-closed one; in both or none as it was.
    pub reset_piface :
        (tp : ℕ) (d : AuthTarget) (g : FGpio) (p : PfDigitalPin Board)
        → d.gpio ≡ some g
        → p.direction ≡ output
        → (e : AuthTarget) × (q : PfDigitalPin Board) × (reset_to_expected_state localtime
              (PfDigitalPin Board)
              (piface_bus tp)
              tp
              d
              p
            ≡ ok (e, q))
          × (read_bit output q.board
              ≡ expected
                  (is_always_open localtime d tp)
                  (is_always_closed localtime d tp)
                  (read_bit output p.board))
    unfolding reset_to_expected_state
    reset_piface tp d g p has out =
        choose (is_always_open localtime d tp) (is_always_closed localtime d tp) _ _ d p
          (through true d g p d.gpio _ has (open_door tp d g p (read_bit output p.board) out refl))
          (through false d g p d.gpio _ has
            (close_door tp d g p (read_bit output p.board) out refl))

  module _ {File : Type 0} (write_value : ℕ → File → File) (file_value : File → ℕ) where
    -- A bus with one pin of the kernel's file system.
    abbrev pub sysfs_bus :
        ℕ → Bytes → Command → SysFsGpioPin File → Option Reply × SysFsGpioPin File
    sysfs_bus now name c p =
        let (r, q) = Sysfs.handle_message write_value file_value now c p in (some r, q)

    is_on_sysfs :
        (now : ℕ) (g : FGpio) (p : SysFsGpioPin File)
        → is_on (SysFsGpioPin File) (sysfs_bus now) g p ≡ err aborted
    unfolding is_on Sysfs.handle_message
    is_on_sysfs now g p = refl

    refuse :
        (o c : Bool) (opening closing other : Result (AuthTarget × SysFsGpioPin File))
        → o ≢ c
        → opening ≡ err aborted
        → closing ≡ err aborted
        → (if o && c then other else if o then opening else if c then closing else other)
          ≡ err aborted
    refuse true true opening closing other differ e f = absurd (differ refl)
    refuse true false opening closing other differ e f = e
    refuse false true opening closing other differ e f = f
    refuse false false opening closing other differ e f = absurd (differ refl)

    -- A pin of the kernel's file system does not answer "STATE": the reset of a door with such a pin
    -- aborts the process whenever the door is in just one of its schedules.
    pub reset_sysfs :
        (tp : ℕ) (d : AuthTarget) (g : FGpio) (p : SysFsGpioPin File)
        → d.gpio ≡ some g
        → is_always_open localtime d tp ≢ is_always_closed localtime d tp
        → reset_to_expected_state localtime (SysFsGpioPin File) (sysfs_bus tp) tp d p ≡ err aborted
    unfolding reset_to_expected_state is_off
    reset_sysfs tp d g p has one = rw has (
        refuse (is_always_open localtime d tp) (is_always_closed localtime d tp) _ _ _ one
          (rw (is_on_sysfs tp g p) refl) (rw (is_on_sysfs tp g p) refl))
