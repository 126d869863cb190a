-- ===== src/Schedule/Window.antt =====
-- When a time frame or a schedule holds.
use access_control.Prelude.{
  ℕ, ◌+◌, ◌*◌, ◌<◌, ◌≤◌, ◌≡◌, ◌↔◌, true, arith, pos, any-append, [], ◌∷◌, ◌||◌,
}
use access_control.Schedule.{
  Tm, TimePoint, SingleTimeFrame, Schedule, is_in_timeframe, is_in_schedule, add_timeframe,
}

abbrev pub minutes : ℕ → ℕ → ℕ
minutes hour min = hour * 60 + min

-- Where every minute count is below 60, a time frame holds exactly on its day of the week, between
-- its first and its last minute, both included. The day is compared with `tm_wday`.
pub is_in_timeframe_window :
    (localtime : TimePoint → Tm) (tp : TimePoint) (wday hour min day sh sm eh em : ℕ)
    → localtime tp ≡ record { tm_wday = pos wday; tm_hour = pos hour; tm_min = pos min }
    → min < 60
    → sm < 60
    → em < 60
    → (is_in_timeframe localtime
          (record {
            day = pos day;
            start_hour = pos sh;
            start_min = pos sm;
            end_hour = pos eh;
            end_min = pos em;
          })
          tp
        ≡ true)
      ↔ ((day ≡ wday) × (minutes sh sm ≤ minutes hour min) × (minutes hour min ≤ minutes eh em))
unfolding is_in_timeframe
is_in_timeframe_window localtime tp wday hour min day sh sm eh em e h1 h2 h3 = ground arith

-- A frame that is added extends the schedule by exactly the times of that frame.
pub is_in_schedule-add_timeframe :
    (localtime : TimePoint → Tm) (s : Schedule) (tf : SingleTimeFrame) (tp : TimePoint)
    → is_in_schedule localtime (add_timeframe s tf) tp
      ≡ (is_in_schedule localtime s tp || is_in_timeframe localtime tf tp)
unfolding is_in_schedule add_timeframe
is_in_schedule-add_timeframe localtime s tf tp =
    rw (any-append (λ f. is_in_timeframe localtime f tp) s.timeframes (tf ∷ [])) (ground arith)
