-- ===== src/DeskRow/Stop/Telemetry.antt =====
-- frontend/src/lib/stop-telemetry.ts: the words and tones for the stop of a held lot. `null` and
-- `undefined` are treated alike there, and are both none. `fixed_one` is `toFixed(1)` and `rounded`
-- the text of `Math.round`.
use Prim.Native.String
use symm.Base.{◌*◌, ◌^◌, String, Bool, Option, none, some, ◌==◌, if◌then◌else◌, or_value}
use symm.Base.Number.{Number, finite, pos, of_ℕ, is_finite, number_lt, number_le}
use symm.Lifecycle.{StoplossState, healthy, protected, critical, dangerous, triggered}
use symm.DeskRow.{Host}
use symm.DeskRow.Stop.{abs_number, max_number, min_number}

pub data StopTone : Type 0 where
  good warn bad info neutral : StopTone

-- 0.25, 0.35, 0.55, 0.7 and 0.85, in units of 2 ^ -1074
abbrev pub quarter : Number
quarter = finite (pos (2 ^ 1072))

abbrev pub level_35 : Number
level_35 = finite (pos (3152519739159347 * 2 ^ 1021))

abbrev pub level_55 : Number
level_55 = finite (pos (2476979795053773 * 2 ^ 1022))

abbrev pub level_70 : Number
level_70 = finite (pos (3152519739159347 * 2 ^ 1022))

abbrev pub level_85 : Number
level_85 = finite (pos (7656119366529843 * 2 ^ 1021))

-- `stateTone`
unfoldable pub state_tone : Option StoplossState → StopTone
state_tone none = neutral
state_tone (some healthy) = good
state_tone (some protected) = info
state_tone (some dangerous) = bad
state_tone (some critical) = bad
state_tone (some triggered) = bad

abbrev pub graded : Number → Number → Number → Number → StopTone
graded high middle low n =
    if number_le high n
    then bad
    else if number_le middle n
    then warn
    else if number_le low n
    then info
    else good

-- `pressureTone`
unfoldable pub pressure_tone : Option Number → StopTone
pressure_tone none = neutral
pressure_tone (some n) = if is_finite n then graded level_85 level_55 quarter n else neutral

-- `floorTone`
unfoldable pub floor_tone : Option Number → StopTone
floor_tone none = neutral
floor_tone (some n) = if is_finite n then graded (of_ℕ 1) level_70 level_35 n else neutral

-- The argument of `heldVerdict`.
pub record HeldStop : Type 0 where
  pub state : Option StoplossState
  pub current : Option Number
  pub peak : Option Number
  pub floor : Option Number
  pub friction : Option Number
  pub has_floor : Bool
  pub proximity : Option Number
  pub downside_pressure : Option Number
  pub exit_reason : Option String
  pub room_pct : Option Number

pub record HeldVerdict : Type 0 where
  pub text : String
  pub tone : StopTone

abbrev pub told : String → StopTone → HeldVerdict
told text tone = record { text = text; tone = tone }

abbrev pub finite_only : Option Number → Option Number
finite_only none = none
finite_only (some n) = if is_finite n then some n else none

abbrev pub between : String → String → String → String
between a b c = String.◌++◌ a (String.◌++◌ b c)

-- `args.exit_reason`, where it is not empty
abbrev pub reason_of : Option String → String
reason_of none = "Stop triggered — desk should exit on this mark"
reason_of (some s) = if s == "" then "Stop triggered — desk should exit on this mark" else s

-- The tone of a lot that holds near its entry.
abbrev pub calm_tone : StopTone → StopTone
calm_tone neutral = good
calm_tone tone = tone

module _ (host : Host) (fixed_one rounded : Number → String) where
  -- `proximityPct`
  unfoldable pub proximity_pct : Option Number → Option Number
  proximity_pct none = none
  proximity_pct (some n) =
      if is_finite n
      then some (max_number (of_ℕ 0) (min_number (of_ℕ 100) (host.mul n (of_ℕ 100))))
      else none

  -- `fmtPct`
  unfoldable pub fmt_pct : Option Number → String
  fmt_pct value = elim (finite_only value) [ none ↦ "—" | some n ↦ String.◌++◌ (fixed_one n) "%" ]

  -- The verdict on a lot that has a price: its floor, its peak, its pressure, in this order.
  unfoldable pub quiet_verdict : HeldStop → Number → HeldVerdict
  quiet_verdict args current =
      told (between "Holding near entry (" (host.to_fixed current) "%) — stop healthy")
        (calm_tone (state_tone args.state))

  unfoldable pub pressed_verdict : HeldStop → Number → HeldVerdict
  pressed_verdict args current = elim args.downside_pressure [
    | none ↦ quiet_verdict args current
    | some n ↦
        if number_lt (of_ℕ 0) n
        then told (between "Underwater — downside pressure " (rounded (host.mul n (of_ℕ 100))) "%")
            (if number_le level_70 n then bad else warn)
        else quiet_verdict args current
  ]

  unfoldable pub peaked_verdict : HeldStop → Number → HeldVerdict
  peaked_verdict args current = elim (finite_only args.peak) [
    | none ↦ pressed_verdict args current
    | some peak ↦
        if number_lt (or_value args.friction (of_ℕ 0)) peak
        then told (between "In profit (peak " (fixed_one peak) "%) — dynamic floor armed") good
        else pressed_verdict args current
  ]

  unfoldable pub priced_verdict : HeldStop → Number → HeldVerdict
  priced_verdict args current = elim (if args.has_floor then args.proximity else none) [
    | none ↦ peaked_verdict args current
    | some proximity ↦
        if number_le (of_ℕ 1) proximity
        then told "At the profit floor — stop should arm" bad
        else elim (finite_only args.room_pct) [
          | none ↦ peaked_verdict args current
          | some room ↦
              told
                (between "Protected — "
                  (between (fixed_one (abs_number room)) "pp room before floor at "
                    (fmt_pct args.floor))
                  "")
                (if number_le level_70 proximity then warn else state_tone args.state)
        ]
  ]

  unfoldable pub unalarmed_verdict : HeldStop → HeldVerdict
  unalarmed_verdict args = elim (finite_only args.current) [
    | none ↦ told "Waiting for the desk book to price the lot" neutral
    | some current ↦ priced_verdict args current
  ]

  -- `heldVerdict`
  unfoldable pub held_verdict : HeldStop → HeldVerdict
  held_verdict args = elim args.state [
    | some triggered ↦ told (reason_of args.exit_reason) bad
    | some dangerous ↦ told "Dangerous — floor proximity or cascade pressure is elevated" bad
    | some critical ↦ told "Critical — room to floor is thinner than entry drag" bad
    | _ ↦ unalarmed_verdict args
  ]
