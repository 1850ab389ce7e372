-- ===== src/Watermarks/Levels.antt =====
-- frontend/src/hooks/useWatermarks.ts: the order of the colours.
use native.Mathlib.Nat.{mul_right_comm, mul-le-mul_right, le_of_mul-le-mul_right}
use secan.Base.{
  ◌≡◌, refl, sym, ◌∙◌, ℕ, ◌*◌, ◌≤◌, ◌<◌, String, Bool, true, false, ◌===◌, if◌then◌else◌, leb,
  arith, Bool-cases, inl, inr,
}
use secan.Json.{Number}
use secan.Watermarks.{WatermarkThresholds, at_least, get_watermark_color}

abbrev pub severity : String → ℕ
severity c =
    if c === "red" then 3 else if c === "orange" then 2 else if c === "yellow" then 1 else 0

abbrev color : Bool → Bool → Bool → String
color flood high low =
    if flood then "red" else if high then "orange" else if low then "yellow" else "blue"

severity-color :
    (a b c x y z : Bool)
    → (a ≡ true → x ≡ true)
    → (b ≡ true → y ≡ true)
    → (c ≡ true → z ≡ true)
    → severity (color a b c) ≤ severity (color x y z)
severity-color true b c true y z f g h = omega arith
severity-color true b c false y z f g h = absurd (cc (f refl))
severity-color false true c true y z f g h = omega arith
severity-color false true c false true z f g h = omega arith
severity-color false true c false false z f g h = absurd (cc (g refl))
severity-color false false true true y z f g h = omega arith
severity-color false false true false true z f g h = omega arith
severity-color false false true false false true f g h = omega arith
severity-color false false true false false false f g h = absurd (cc (h refl))
severity-color false false false x y z f g h = omega arith

-- Fractions are ordered.
fractions_trans :
    (t_over t_under p_over p_under q_over q_under : ℕ)
    → 0 < p_under
    → t_over * p_under ≤ p_over * t_under
    → p_over * q_under ≤ q_over * p_under
    → t_over * q_under ≤ q_over * t_under
fractions_trans to tu po pu qo qu some_under first second =
    let left : to * pu * qu ≤ po * tu * qu = mul-le-mul_right qu first in
    let right : po * qu * tu ≤ qo * pu * tu = mul-le-mul_right tu second in
    let a : to * pu * qu ≡ to * qu * pu = mul_right_comm to pu qu in
    let b : po * tu * qu ≡ po * qu * tu = mul_right_comm po tu qu in
    let c : qo * pu * tu ≡ qo * tu * pu = mul_right_comm qo pu tu in
    let whole : to * qu * pu ≤ qo * tu * pu = omega arith in le_of_mul-le-mul_right whole some_under

leb_le : {m n : ℕ} → leb m n ≡ true → m ≤ n
leb_le e = ground arith

le_leb : {m n : ℕ} → m ≤ n → leb m n ≡ true
le_leb le = ground arith

at_least-unsigned :
    (a b : Number)
    → a.negative ≡ false
    → b.negative ≡ false
    → at_least a b ≡ leb (b.over * a.under) (a.over * b.under)
at_least-unsigned a b e f = rw e (rw f refl)

module _ (p q : Number) (p_sign : p.negative ≡ false) (q_sign : q.negative ≡ false)
    (some_under : 0 < p.under) (more : at_least q p ≡ true) where
  at_least_trans : (t : Number) → at_least p t ≡ true → at_least q t ≡ true
  at_least_trans t reached = elim (Bool-cases t.negative) [
    | inl below ↦ rw q_sign (rw below refl)
    | inr above ↦
        let first : leb (t.over * p.under) (p.over * t.under) ≡ true =
          sym (at_least-unsigned p t p_sign above) ∙ reached in
        let second : leb (p.over * q.under) (q.over * p.under) ≡ true =
          sym (at_least-unsigned q p q_sign p_sign) ∙ more in
        let third =
          fractions_trans t.over t.under p.over p.under q.over q.under some_under (leb_le first)
            (leb_le second) in
        at_least-unsigned q t q_sign above ∙ le_leb third
  ]

  -- A larger percentage never has a milder colour, whatever the thresholds are, also out of order. The
  -- percentages are not negative.
  pub get_watermark_color_mono :
      (w : WatermarkThresholds)
      → severity (get_watermark_color p w) ≤ severity (get_watermark_color q w)
  unfolding get_watermark_color
  get_watermark_color_mono w =
      severity-color (at_least p w.flood_stage) (at_least p w.high) (at_least p w.low)
        (at_least q w.flood_stage) (at_least q w.high) (at_least q w.low)
        (at_least_trans w.flood_stage) (at_least_trans w.high) (at_least_trans w.low)
