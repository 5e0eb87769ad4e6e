-- ===== src/Tests/Hlc.antt =====
-- hiveguard-core/src/hlc.rs at concrete clocks.
use hiveguard.Prelude.{◌≡◌, refl, arith, List, [], ◌∷◌}
use hiveguard.Hlc.{HlcTimestamp, InRange, tick, update}
use hiveguard.Hlc.Clock
use hiveguard.Hlc.Run
use hiveguard.Hlc.Run.{Event, run, Ascending}

abbrev clock : HlcTimestamp
clock = record { wall_time_ms = 1000; counter = 3; node_id_hash = 1 }

abbrev peer : HlcTimestamp
peer = record { wall_time_ms = 1000; counter = 5; node_id_hash = 2 }

-- As in the source's test: the larger counter, plus one.
update_same_wall : update 900 clock peer ≡ record clock { counter = 6 }
unfolding update
update_same_wall = refl

tick_later : tick 2000 clock ≡ record clock { wall_time_ms = 2000; counter = 0 }
unfolding tick
tick_later = refl

clock-InRange : InRange clock
clock-InRange = omega arith

abbrev last_counter : HlcTimestamp
last_counter = record peer { counter = 4294967295 }

abbrev events : List Event
events = Event.local 900 ∷ Event.receive 950 peer ∷ Event.local 2000 ∷ []

run-Ascending_example : Ascending clock (run events clock)
run-Ascending_example = Run.run-Ascending 5 events clock (omega arith) (omega arith) (omega arith)
