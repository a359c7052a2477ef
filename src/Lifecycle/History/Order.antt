-- ===== src/Lifecycle/History/Order.antt =====
-- Stamps are ordered by epoch, then tick, then timestamp.
use symm.Base.{◌≡◌, ◌⊎◌, ◌<◌, ◌↔◌, ◌∙◌, ap, refl, inl, inr, true, false, arith, sym, Bool-cases}
use symm.Base.Number.{ℤ, pos, negsuc, int_eq, int_lt}
use symm.Listing.{Stamp}
use symm.Lifecycle.History.{is_newer}

int_lt_trans : (a b c : ℤ) → int_lt a b ≡ true → int_lt b c ≡ true → int_lt a c ≡ true
int_lt_trans a b c h k = ground arith

int_eq_sound : (a b : ℤ) → int_eq a b ≡ true → a ≡ b
int_eq_sound a b h = ground arith

int_eq_sym : (a b : ℤ) → int_eq a b ≡ int_eq b a
int_eq_sym a b = ground arith

int_total : (a b : ℤ) → int_eq a b ≡ false → int_lt a b ≡ false → int_lt b a ≡ true
int_total a b h k = ground arith

is_newer_irrefl : (a : Stamp) → is_newer a a ≡ false
unfolding is_newer
is_newer_irrefl a = ground arith

is_newer_trans : (a b c : Stamp) → is_newer a b ≡ true → is_newer b c ≡ true → is_newer a c ≡ true
unfolding is_newer
is_newer_trans a b c h k = ground (
  arith,
  int_eq_sound a.epoch b.epoch,
  int_eq_sound b.epoch c.epoch,
  int_eq_sound a.tick b.tick,
  int_eq_sound b.tick c.tick,
  int_lt_trans a.epoch b.epoch c.epoch,
  int_lt_trans a.tick b.tick c.tick,
  int_lt_trans a.timestamp b.timestamp c.timestamp,
)

same_stamp : (a b : Stamp) → a.epoch ≡ b.epoch → a.tick ≡ b.tick → a.timestamp ≡ b.timestamp → a ≡ b
same_stamp a b e t s i = record { epoch = e i; tick = t i; timestamp = s i }

-- The last case of the order, for stamps of one epoch and one tick.
later_timestamp :
    (a b : Stamp)
    → int_eq a.epoch b.epoch ≡ true
    → int_eq a.tick b.tick ≡ true
    → (is_newer a b ≡ true) ⊎ ((is_newer b a ≡ true) ⊎ (a ≡ b))
unfolding is_newer
later_timestamp a b e t = elim (Bool-cases (int_lt b.timestamp a.timestamp)) [
  | inl later ↦ inl (ground (arith))
  | inr earlier ↦ elim (Bool-cases (int_eq b.timestamp a.timestamp)) [
    | inl same ↦ inr (
        inr (
          same_stamp a b (int_eq_sound a.epoch b.epoch e) (int_eq_sound a.tick b.tick t)
            (sym (int_eq_sound b.timestamp a.timestamp same))))
    | inr apart ↦ inr (
        inl (
          ground (
            arith,
            int_eq_sym a.epoch b.epoch,
            int_eq_sym a.tick b.tick,
            int_total b.timestamp a.timestamp,
          )))
  ]
]

is_newer_total : (a b : Stamp) → (is_newer a b ≡ true) ⊎ ((is_newer b a ≡ true) ⊎ (a ≡ b))
unfolding is_newer
is_newer_total a b = elim (Bool-cases (int_eq a.epoch b.epoch)) [
  | inl e ↦ elim (Bool-cases (int_eq a.tick b.tick)) [
    | inl t ↦ later_timestamp a b e t
    | inr apart ↦ ground (
      arith,
      int_eq_sym a.epoch b.epoch,
      int_eq_sym a.tick b.tick,
      int_eq_sym b.tick a.tick,
      int_total b.tick a.tick,
    )
  ]
  | inr apart ↦ ground (arith, int_eq_sym b.epoch a.epoch, int_total b.epoch a.epoch)
]

-- One integer is greater than another.
abbrev pub IsAbove : ℤ → ℤ → Type 0
IsAbove (pos a) (pos b) = b < a
IsAbove (pos a) (negsuc b) = Unit
IsAbove (negsuc a) (pos b) = ⊥
IsAbove (negsuc a) (negsuc b) = a < b

-- A stamp of a later epoch; of the same epoch and a later tick; or of the same tick and a later time.
abbrev pub IsAfter : Stamp → Stamp → Type 0
IsAfter a b =
    IsAbove a.epoch b.epoch
    ⊎ ((a.epoch ≡ b.epoch)
        × (IsAbove a.tick b.tick ⊎ ((a.tick ≡ b.tick) × IsAbove a.timestamp b.timestamp)))

int_lt_iff : (a b : ℤ) → (int_lt b a ≡ true) ↔ IsAbove a b
int_lt_iff (pos a) (pos b) = (λ h. ground arith, λ h. ground arith)
int_lt_iff (pos a) (negsuc b) = (λ h. tt, λ h. refl)
int_lt_iff (negsuc a) (pos b) = (λ h. cc, λ h. absurd h)
int_lt_iff (negsuc a) (negsuc b) = (λ h. ground arith, λ h. ground arith)

int_eq_refl : (a : ℤ) → int_eq a a ≡ true
int_eq_refl a = ground arith

int_lt_apart : (a b : ℤ) → int_lt b a ≡ true → int_eq a b ≡ false
int_lt_apart a b h = ground arith

is_newer-IsAfter : (a b : Stamp) → is_newer a b ≡ true → IsAfter a b
unfolding is_newer
is_newer-IsAfter a b h = elim (Bool-cases (int_eq a.epoch b.epoch)) [
  | inr apart ↦ inl ((int_lt_iff a.epoch b.epoch).0 (ground (arith, apart, h)))
  | inl epochs ↦ inr (
    int_eq_sound a.epoch b.epoch epochs,
    elim (Bool-cases (int_eq a.tick b.tick)) [
      | inr apart ↦ inl ((int_lt_iff a.tick b.tick).0 (ground (arith, epochs, apart, h)))
      | inl ticks ↦ inr (
        int_eq_sound a.tick b.tick ticks,
        (int_lt_iff a.timestamp b.timestamp).0 (ground (arith, epochs, ticks, h)),
      )
    ],
  )
]

equal_ints : (a b : ℤ) → a ≡ b → int_eq a b ≡ true
equal_ints a b e = ap (int_eq a) (sym e) ∙ int_eq_refl a

IsAfter-is_newer : (a b : Stamp) → IsAfter a b → is_newer a b ≡ true
unfolding is_newer
IsAfter-is_newer a b (inl epoch) =
    let later = (int_lt_iff a.epoch b.epoch).1 epoch in
    ground (arith, later, int_lt_apart a.epoch b.epoch later)
IsAfter-is_newer a b (inr (epochs, inl tick)) =
    let later = (int_lt_iff a.tick b.tick).1 tick in
    ground (arith, equal_ints a.epoch b.epoch epochs, later, int_lt_apart a.tick b.tick later)
IsAfter-is_newer a b (inr (epochs, inr (ticks, time))) =
    let later = (int_lt_iff a.timestamp b.timestamp).1 time in
    ground (arith, equal_ints a.epoch b.epoch epochs, equal_ints a.tick b.tick ticks, later)

-- A stamp is newer than another exactly if its epoch is greater, or its epoch is the same and its
-- tick greater, or both are the same and its timestamp is greater. No stamp is newer than itself,
-- what is newer than a newer stamp is newer, and of two stamps that differ one is newer.
pub is_newer_order :
    (a b c : Stamp)
    → ((is_newer a b ≡ true) ↔ IsAfter a b)
      × (is_newer a a ≡ false)
      × (is_newer a b ≡ true → is_newer b c ≡ true → is_newer a c ≡ true)
      × ((is_newer a b ≡ true) ⊎ ((is_newer b a ≡ true) ⊎ (a ≡ b)))
is_newer_order a b c = (
  (is_newer-IsAfter a b, IsAfter-is_newer a b),
  is_newer_irrefl a,
  is_newer_trans a b c,
  is_newer_total a b,
)
