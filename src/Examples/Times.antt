-- ===== src/Examples/Times.antt =====
-- Time frames, schedules and their names.
use access_control.Prelude.{◌≡◌, ◌↔◌, ◌≤◌, true, [], ◌∷◌, pos, codes, ℕ, refl, arith}
use access_control.Schedule.{
  Tm, TimePoint, SingleTimeFrame, Schedule, is_in_timeframe, frame_ltb, lexicographic, accepted,
  validate_name,
}
use access_control.Schedule.Window.{minutes, is_in_timeframe_window}

abbrev tuesday : Tm
tuesday = record { tm_wday = pos 2; tm_hour = pos 9; tm_min = pos 30 }

abbrev clock : TimePoint → Tm
clock tp = tuesday

abbrev frame : ℕ → ℕ → SingleTimeFrame
frame first last = record {
  day = pos 2;
  start_hour = pos first;
  start_min = pos 0;
  end_hour = pos last;
  end_min = pos 30;
}

abbrev office : Schedule
office = record { id = 1; name = codes "office"; description = []; timeframes = frame 14 18 ∷ [] }

is_in_timeframe_window_example :
    (is_in_timeframe clock (frame 8 9) (pos 0) ≡ true)
    ↔ (◌≡◌ {A = ℕ} 2 2 × (minutes 8 0 ≤ minutes 9 30) × (minutes 9 30 ≤ minutes 9 30))
is_in_timeframe_window_example =
    is_in_timeframe_window clock (pos 0) 2 9 30 2 8 0 9 30 refl (omega arith) (omega arith)
      (omega arith)

first_pair : frame_ltb (frame 8 9) (frame 8 10) ≡ true
unfolding frame_ltb lexicographic
first_pair = ground arith

second_pair : frame_ltb (frame 8 10) (frame 9 10) ≡ true
unfolding frame_ltb lexicographic
second_pair = ground arith

office_valid : validate_name office.name ≡ accepted
unfolding validate_name
office_valid = ground arith
