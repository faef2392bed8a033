-- ===== src/Probe/Runner/Laws.antt =====
-- `run` on an array within its bounds.
use qvac_atlas.Base.{ℕ, ◌≤◌, ◌≡◌, refl, ap, List, [], ◌∷◌, arith, length, ltb, false}
use qvac_atlas.Json.{Value, arr, items, of_items}
use qvac_atlas.Probe.Runner.{run, returned, collect, parse_all}

pub items-of_items : (vs : List Value) → items (of_items vs) ≡ vs
items-of_items [] = refl
items-of_items (v ∷ vs) = ap (λ r. v ∷ r) (items-of_items vs)

not_above : (n m : ℕ) → n ≤ m → ltb m n ≡ false
not_above n m h = ground arith

-- At most 32 items in which the privacy scan finds nothing are all parsed and collected.
pub run_within :
    (scan : Value → ℕ) (vs : List Value)
    → length vs ≤ 32
    → scan (arr (of_items vs)) ≡ 0
    → run scan (returned (arr (of_items vs))) ≡ collect (parse_all vs)
unfolding run
run_within scan vs few clean = rw (items-of_items vs, clean, not_above (length vs) 32 few)
