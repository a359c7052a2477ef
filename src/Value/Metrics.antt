-- ===== src/Value/Metrics.antt =====
-- The scalar readings of a frame.
use symm.Base.{
  ℕ, String, true, Option, List, [], ◌∷◌, ◌≡◌, ◌==◌, if◌then◌else◌, Dict, insert, Values,
  Values-insert, Bool-cases, inl, inr,
}
use symm.Base.Number.{Number, is_finite}
use symm.Base.Json.{Json, undefined, null, bool, bigint, num, str, arr, obj, items}
use symm.Base.Text.{split_slash, non_empty}
use symm.Value.{
  Value, expand, add_scalar, scalar_name, first_of, has_several, add_metric, add_metrics, metrics,
  readings,
}

abbrev pub AreFinite : Dict Number → Type 0
AreFinite = Values (λ n. is_finite n ≡ true)

put_finite :
    (name : String) (n : Number) (out : Dict Number)
    → AreFinite out
    → AreFinite (if is_finite n then insert name n out else out)
put_finite name n out h = elim (Bool-cases (is_finite n)) [
  | inl finite ↦ rw finite (Values-insert (λ k. is_finite k ≡ true) name n out finite h)
  | inr odd ↦ rw odd h
]

module _ (decode : List ℕ → Option Json) where
  expand_finite :
      (names : List String) (values : List Json) (out : Dict Number)
      → AreFinite out
      → AreFinite (expand names values out)
  unfolding expand
  expand_finite [] values out h = h
  expand_finite (name ∷ names) [] out h = h
  expand_finite (name ∷ names) (num n ∷ values) out h =
      expand_finite names values (if is_finite n then insert name n out else out)
        (put_finite name n out h)
  expand_finite (name ∷ names) (undefined ∷ values) out h = expand_finite names values out h
  expand_finite (name ∷ names) (null ∷ values) out h = expand_finite names values out h
  expand_finite (name ∷ names) (bool b ∷ values) out h = expand_finite names values out h
  expand_finite (name ∷ names) (bigint i ∷ values) out h = expand_finite names values out h
  expand_finite (name ∷ names) (str s ∷ values) out h = expand_finite names values out h
  expand_finite (name ∷ names) (arr vs ∷ values) out h = expand_finite names values out h
  expand_finite (name ∷ names) (obj fs ∷ values) out h = expand_finite names values out h

  add_scalar_finite :
      (name : String) (payload : Json) (out : Dict Number)
      → AreFinite out
      → AreFinite (add_scalar name payload out)
  add_scalar_finite name (num n) out h = put_finite name n out h
  add_scalar_finite name _ out h = h

  add_metric_finite :
      (suffix : String) (payload : Json) (out : Dict Number)
      → AreFinite out
      → AreFinite (add_metric suffix payload out)
  unfolding add_metric
  add_metric_finite suffix payload out h = elim (Bool-cases (suffix == "")) [
    | inl bare ↦ rw bare h
    | inr named ↦ rw named (cases payload)
  ]
    where
      names : List String
      names = non_empty (split_slash suffix)

      cases :
          (payload : Json)
          → AreFinite (elim payload [
            | arr values ↦
                if has_several names
                then expand names (items values) out
                else add_scalar (scalar_name suffix names) (first_of (arr values)) out
            | other ↦ add_scalar (scalar_name suffix names) other out
          ])
      cases (arr values) = elim (Bool-cases (has_several names)) [
        | inl many ↦ rw many (expand_finite names (items values) out h)
        | inr one ↦
            rw one (add_scalar_finite (scalar_name suffix names) (first_of (arr values)) out h)
      ]
      cases other = add_scalar_finite (scalar_name suffix names) other out h

  add_metrics_finite :
      (found : List (String × Json)) (out : Dict Number)
      → AreFinite out
      → AreFinite (add_metrics found out)
  unfolding add_metrics
  add_metrics_finite [] out h = h
  add_metrics_finite ((suffix, payload) ∷ rest) out h =
      add_metrics_finite rest (add_metric suffix payload out)
        (add_metric_finite suffix payload out h)

  -- Every metric that a frame reports is a finite number, whatever its layers hold.
  pub metrics-AreFinite : (v : Value) → AreFinite (metrics decode v)
  unfolding metrics
  metrics-AreFinite v = add_metrics_finite (readings decode v) [] tt
