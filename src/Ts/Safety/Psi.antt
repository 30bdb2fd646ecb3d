-- ===== src/Ts/Safety/Psi.antt =====
-- src/ts.c: the branch for PSI sections runs without a fault, in two rounds at most.
use demuxfs.Prelude.{
  ℕ, ◌+◌, ◌-◌, ◌≤◌, ◌<◌, ◌≡◌, inl, inr, refl, Bool, true, false, ◌||◌, Option, none, some, List,
  ◌==◌, ltb, leb, length, Returns, arith, Bool-cases,
}
use demuxfs.Ts.Packet.{read_at}
use demuxfs.Ts.Packet.Psi.{Window, length_field, is_stuffing, first_window, next_window}
use demuxfs.Ts.Safety.{Returns-bind, read_at-Returns}

length_field-Returns :
    (payload : List ℕ) (start : ℕ)
    → start + 2 < length payload
    → Returns {0, 0} (length_field payload start) (λ n. Unit)
unfolding length_field
length_field-Returns payload start h =
    Returns-bind (read_at payload (start + 1)) _ (read_at-Returns payload (start + 1) (omega arith))
      (λ hi _.
        Returns-bind (read_at payload (start + 2)) _
          (read_at-Returns payload (start + 2) (omega arith)) (λ lo _. (_, refl, tt)))

pub is_stuffing-Returns :
    (payload : List ℕ) (start : ℕ)
    → start < length payload
    → Returns {0, 0} (is_stuffing payload start) (λ b. Unit)
unfolding is_stuffing
is_stuffing-Returns payload start h =
    Returns-bind (read_at payload start) _ (read_at-Returns payload start h) (λ b _. (_, refl, tt))

-- A window is inside of the payload, if it is not behind its end.
pub record IsInside (payload_end : ℕ) (w : Window) : Type 0 where
  pub last : w.last ≤ payload_end
  pub forward : w.start ≤ w.last + 1

abbrev pub Maybe : (Window → Type 0) → Option Window → Type 0
Maybe P none = Unit
Maybe P (some w) = P w

-- Where no window follows, the loop is left; where one does, it is the last.
abbrev pub IsFinal : ℕ → Window → Type 0
IsFinal payload_end w = IsInside payload_end w × (w.pusi ≡ false)

module _ (payload : List ℕ) (payload_end : ℕ) (fits : payload_end < length payload) where
  pub first_window-Returns :
      (pusi : Bool) (payload_start : ℕ)
      → payload_start + 3 < length payload
      → payload_start ≤ payload_end + 1
      → Returns (first_window pusi payload payload_start payload_end) (Maybe (IsInside payload_end))
  unfolding first_window
  first_window-Returns false payload_start h g =
      (_, refl, record { last = omega arith; forward = g })
  first_window-Returns true payload_start h g =
      Returns-bind (read_at payload payload_start) _
        (read_at-Returns payload payload_start (omega arith))
        (λ pointer_field _. elim (Bool-cases (ltb payload_end (payload_start + pointer_field))) [
          | inl behind ↦ rw behind (_, refl, tt)
          | inr inside ↦ rw inside (
              Returns-bind (length_field payload (payload_start + 1)) _
                (length_field-Returns payload (payload_start + 1) (omega arith))
                (λ n _. (_, refl, record { last = ground arith; forward = ground arith })))
        ])

  pub next_window-Returns :
      (w : Window) → Returns (next_window w payload payload_end) (Maybe (IsFinal payload_end))
  unfolding next_window
  next_window-Returns w = elim (Bool-cases (leb (payload_end - 1) (w.last + 1))) [
    | inl behind ↦ rw behind (_, refl, tt)
    | inr inside ↦
        let less : w.last + 3 ≤ payload_end = ground arith in
        rw inside (
          Returns-bind (length_field payload (w.last + 1)) _
            (length_field-Returns payload (w.last + 1) (omega arith))
            (λ n _.
              Returns-bind (is_stuffing payload (w.last + 1)) _
                (is_stuffing-Returns payload (w.last + 1) (omega arith))
                (λ stuffing _. elim (Bool-cases (stuffing || n == 0)) [
                  | inl stop ↦ rw stop (_, refl, tt)
                  | inr on ↦
                      rw on
                        (_, refl, (record { last = ground arith; forward = ground arith }, refl))
                ])))
  ]
