-- ===== src/Examples/Alarms.antt =====
-- Examples of the alarms: a limit of 10 that has to be exceeded for 60 seconds.
use data_gateway.Base.{
  ℕ, ◌≡◌, refl, true, false, ◌&&◌, Option, none, some, [], ◌∷◌, arith, leb, if◌then◌else◌,
}
use data_gateway.Base.Dict.{get, put}
use data_gateway.Base.Key.{String_key, pair_key}
use data_gateway.Base.Int.{pos}
use data_gateway.Base.Floats.{whole}
use data_gateway.Config.{CcpRule}
use data_gateway.Mes.Alarms.{Alarms, find, emit, raise_alarm, hold_key, deviates, check}
use data_gateway.Mes.Alarms.Holds.{
  Reading, is_bad, check_one, check_all, check_raises, check_raises_once,
}

abbrev limit_10 : CcpRule whole
limit_10 = record {
  id = "CCP-1";
  item = "temperature";
  equip = "TK1" ∷ [];
  key = "temp";
  low = none;
  high = some (pos 10);
  band = none;
  band_pct = none;
  std = none;
  ng_immediate = false;
  unit = "C";
  hold = 60;
  severity = "HIGH";
}

abbrev quiet : Alarms
quiet = record { table = []; next_id = 1; timers = []; active = []; published = [] }

abbrev timed : Alarms
timed = (check whole limit_10 "TK1" (pos 20) 100 "" none quiet).1

too_high : deviates whole limit_10 (pos 20) none ≡ true
unfolding deviates
too_high = refl

fine_again : deviates whole limit_10 (pos 5) none ≡ false
unfolding deviates
fine_again = refl

abbrev at_100 : Reading whole
at_100 = record { at = 100; value = pos 20; target = none }

abbrev at_130 : Reading whole
at_130 = record { at = 130; value = pos 20; target = none }

abbrev at_160 : Reading whole
at_160 = record { at = 160; value = pos 20; target = none }

no_timer : ◌≡◌ {A = Option ℕ} (get ("CCP-1", ("TK1", "")) quiet.timers) none
unfolding get
no_timer = refl

no_alarm : ◌≡◌ {A = Option ℕ} (get ("CCP-1", ("TK1", "")) quiet.active) none
unfolding get
no_alarm = refl

check_raises_example :
    (check_one whole limit_10 "TK1" "" at_160
      (check_all whole limit_10 "TK1" "" (at_100 ∷ at_130 ∷ []) quiet)).0.1
    ≡ (if is_bad whole limit_10 "TK1" "" at_160 && leb 160 160 then some 1 else none)
check_raises_example =
    check_raises whole limit_10 "TK1" "" at_100 (at_130 ∷ []) at_160 quiet (omega arith) no_timer
      no_alarm too_high ((too_high, omega arith), tt)

raised_after_60 : (check whole limit_10 "TK1" (pos 20) 160 "" none timed).0.1 ≡ some 1
unfolding check deviates hold_key raise_alarm emit find get put
raised_after_60 = refl

not_raised_after_59 : (check whole limit_10 "TK1" (pos 20) 159 "" none timed).0.1 ≡ none
unfolding check deviates hold_key raise_alarm emit find get put
not_raised_after_59 = refl

check_raises_once_example :
    (get ("CCP-1", ("TK1", "")) (check whole limit_10 "TK1" (pos 20) 160 "" none timed).1.active
      ≡ some 1)
    × ((check whole limit_10 "TK1"
          (pos 30)
          200
          ""
          none
          (check whole limit_10 "TK1" (pos 20) 160 "" none timed).1).0.1
        ≡ none)
check_raises_once_example =
    check_raises_once whole limit_10 "TK1" (pos 20) (pos 30) 160 200 "" none timed 1 raised_after_60
