-- ===== src/DeskRow/Stop/Again.antt =====
-- A stop that is normalized already.
use symm.Base.{String, ◌≡◌, refl, Bool, true, false, Option, none, some, ◌==◌}
use symm.Base.Number.{Number, is_finite}
use symm.Base.Json.{Json, undefined, bool, num, str, obj, Fields, field, end}
use symm.Lifecycle.{
  StoplossState, healthy, protected, critical, dangerous, triggered, DynamicStoploss,
}
use symm.DeskRow.{Host, or_json}
use symm.DeskRow.Stop.{
  abs_number, finite_of, state_from_wire, normalize_stoploss, named_text, has_floor_of,
}

abbrev pub label_of : StoplossState → String
label_of healthy = "Healthy"
label_of protected = "Protected"
label_of critical = "Critical"
label_of dangerous = "Dangerous"
label_of triggered = "Triggered"

-- A text that may be missing, as a field.
abbrev pub text_field : Option String → Json
text_field none = undefined
text_field (some s) = str s

-- The object of a stop.
abbrev pub stop_fields : DynamicStoploss → Fields
stop_fields d = field "state" (str (label_of d.state)) (
    field "friction" (num d.friction) (
      field "current_pnl" (num d.current_pnl) (
        field "peak_pnl" (num d.peak_pnl) (
          field "floor_pnl" (num d.floor_pnl) (
            field "has_floor" (bool d.has_floor) (
              field "room_pct" (num d.room_pct) (
                field "proximity" (num d.proximity) (
                  field "downside_pressure" (num d.downside_pressure) (
                    field "downside_magnitude_ratio" (num d.downside_magnitude_ratio) (
                      field "consecutive_down" (num d.consecutive_down) (
                        field "exit_reason" (text_field d.exit_reason) (
                          field "opened_at" (text_field d.opened_at)
                            (field "last_peak_time" (text_field d.last_peak_time) end)))))))))))))

abbrev pub IsNamedText : Option String → Type 0
IsNamedText none = Unit
IsNamedText (some s) = (s == "") ≡ false

-- A stop with finite numbers, a friction that is not negative, its floor flag set and no empty text.
pub record IsNormal (d : DynamicStoploss) : Type 0 where
  pub friction : (is_finite d.friction ≡ true) × (abs_number d.friction ≡ d.friction)
  pub current_pnl : is_finite d.current_pnl ≡ true
  pub peak_pnl : is_finite d.peak_pnl ≡ true
  pub floor_pnl : is_finite d.floor_pnl ≡ true
  pub has_floor : d.has_floor ≡ true
  pub room_pct : is_finite d.room_pct ≡ true
  pub proximity : is_finite d.proximity ≡ true
  pub downside_pressure : is_finite d.downside_pressure ≡ true
  pub downside_magnitude_ratio : is_finite d.downside_magnitude_ratio ≡ true
  pub consecutive_down : is_finite d.consecutive_down ≡ true
  pub exit_reason : IsNamedText d.exit_reason
  pub opened_at : IsNamedText d.opened_at
  pub last_peak_time : IsNamedText d.last_peak_time

module _ (host : Host) where
  state_from_wire-label :
      (d : DynamicStoploss) (state : StoplossState)
      → d.state ≡ state
      → state_from_wire host (stop_fields d) ≡ some d.state
  unfolding state_from_wire
  state_from_wire-label d healthy e = rw e refl
  state_from_wire-label d protected e = rw e refl
  state_from_wire-label d critical e = rw e refl
  state_from_wire-label d dangerous e = rw e refl
  state_from_wire-label d triggered e = rw e refl

  finite_of-num : (n : Number) → is_finite n ≡ true → finite_of host (num n) ≡ some n
  unfolding finite_of
  finite_of-num n h = rw h refl

  named_text-text_field :
      (o : Option String) → IsNamedText o → named_text (or_json (text_field o) undefined) ≡ o
  named_text-text_field none h = refl
  named_text-text_field (some s) h = rw h refl

  floor_flag :
      (flag : Bool) (floor : Number) → flag ≡ true → has_floor_of host (bool flag) floor ≡ flag
  floor_flag true floor h = refl
  floor_flag false floor h = cc

  -- A stop that is normal is read back as it is.
  pub normalize_stoploss-stop_fields :
      (d : DynamicStoploss) → IsNormal d → normalize_stoploss host (obj (stop_fields d)) ≡ some d
  unfolding normalize_stoploss
  normalize_stoploss-stop_fields d h =
      rw
        (
          state_from_wire-label d d.state refl,
          finite_of-num d.friction (h.friction.0),
          finite_of-num d.current_pnl h.current_pnl,
          finite_of-num d.peak_pnl h.peak_pnl,
          finite_of-num d.floor_pnl h.floor_pnl,
          finite_of-num d.room_pct h.room_pct,
          finite_of-num d.proximity h.proximity,
          finite_of-num d.downside_pressure h.downside_pressure,
          finite_of-num d.downside_magnitude_ratio h.downside_magnitude_ratio,
          finite_of-num d.consecutive_down h.consecutive_down,
          named_text-text_field d.exit_reason h.exit_reason,
          named_text-text_field d.opened_at h.opened_at,
          named_text-text_field d.last_peak_time h.last_peak_time,
          normalize_stoploss,
        )
        (λ i. some (record d {
          friction = h.friction.1 i;
          has_floor = (floor_flag d.has_floor d.floor_pnl h.has_floor) i;
        }))
