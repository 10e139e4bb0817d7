-- ===== src/Status/Elapsed.antt =====
-- The phrases of `format_elapsed`.
use marimo_operator.Base.{
  ℕ, ◌+◌, ◌*◌, ◌/◌, ◌≤◌, ◌<◌, Text, codes, decimal, ltb, Bool-cases, true, false, ◌≡◌, refl, ◌⊎◌,
  inl, inr, ◌++◌, arith,
}
use marimo_operator.Status.{second, ago}

-- `n` whole units of a length, and less than `limit` of them.
pub record Counts (micros unit limit : ℕ) (suffix : Text) (phrase : Text) : Type 0 where
  pub count : ℕ
  pub says : phrase ≡ decimal count ++ suffix
  pub positive : 1 ≤ count
  pub limited : count < limit
  pub from : count * unit ≤ micros
  pub until : micros < (count + 1) * unit

ltb-cases : (a b : ℕ) → ((ltb a b ≡ true) × (a < b)) ⊎ ((ltb a b ≡ false) × (b ≤ a))
ltb-cases a b = elim (Bool-cases (ltb a b)) [
  | inl e ↦ inl (e, ground arith)
  | inr e ↦ inr (e, ground arith)
]

module _ (micros unit limit : ℕ) (suffix : Text) {phrase : Text} where
  counts :
      phrase ≡ decimal (micros / unit) ++ suffix
      → 1 ≤ micros / unit
      → micros / unit < limit
      → (micros / unit) * unit ≤ micros
      → micros < (micros / unit + 1) * unit
      → Counts micros unit limit suffix phrase
  counts e a b c d = record {
    count = micros / unit;
    says = e;
    positive = a;
    limited = b;
    from = c;
    until = d;
  }

-- A time below a minute is "just now"; any other is a positive number of whole minutes below an
-- hour, of whole hours below a day, or of whole days.
pub ago-Counts :
    (micros : ℕ)
    → ((micros < 60 * second) × (ago micros ≡ codes "just now"))
      ⊎ (Counts micros (60 * second) 60 (codes "m ago") (ago micros)
          ⊎ (Counts micros (3600 * second) 24 (codes "h ago") (ago micros)
              ⊎ Counts micros (86400 * second) (micros + 1) (codes "d ago") (ago micros)))
ago-Counts micros = elim (ltb-cases micros (60 * second)) [
  | inl (e, l) ↦ inl (l, unfold ago in rw e refl)
  | inr (e, l) ↦ inr (elim (ltb-cases micros (3600 * second)) [
    | inl (e2, l2) ↦ inl (
        counts micros (60 * second) 60 (codes "m ago") (unfold ago in rw e (rw e2 refl))
          (omega arith) (omega arith) (omega arith) (omega arith))
    | inr (e2, l2) ↦ inr (elim (ltb-cases micros (86400 * second)) [
      | inl (e3, l3) ↦ inl (
          counts micros (3600 * second) 24 (codes "h ago") (unfold ago in rw e (rw e2 (rw e3 refl)))
            (omega arith) (omega arith) (omega arith) (omega arith))
      | inr (e3, l3) ↦ inr (
          counts micros (86400 * second) (micros + 1) (codes "d ago")
            (unfold ago in rw e (rw e2 (rw e3 refl))) (omega arith) (omega arith) (omega arith)
            (omega arith))
    ])
  ])
]
