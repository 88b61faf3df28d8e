-- ===== src/Fifo/Tests.antt =====
-- utils/fifo_buf.cpp on a ring of four bytes whose contents go round the end.
use mocf.Base.{◌+◌, ◌^◌, ◌<◌, ◌≤◌, ◌≡◌, refl, Option, some, List, [], ◌∷◌, ◌++◌, arith, take, min}
use mocf.Fifo.{Fifo, put, get, space, put_span, get_span, clip, put_round, get_round, new}
use mocf.Fifo.Contents.{IsValid, contents}
use mocf.Fifo.Put.{put-contents}
use mocf.Fifo.Get.{get-contents}
use mocf.Fifo.Queue.{
  Op, puts, gets, peeks, spaces, clears, run, spec_run, run_refines, copies_in_bounds,
}

-- 7, then 8, then 9 at the front of the storage.
abbrev wrapped : Fifo
wrapped = record { size = 4; pos = 2; fill = 3; buf = 9 ∷ 1 ∷ 7 ∷ 8 ∷ [] }

abbrev script : List Op
script =
    puts (5 ∷ 6 ∷ []) ∷ peeks 2 ∷ gets 3 ∷ spaces ∷ puts (2 ∷ 3 ∷ 4 ∷ []) ∷ gets 9 ∷ clears ∷ []

wrapped-IsValid : IsValid wrapped
wrapped-IsValid = omega arith

contents-wrapped : contents wrapped ≡ 7 ∷ 8 ∷ 9 ∷ []
contents-wrapped = refl

new_empty : new 0 ≡ Option.none
unfolding new
new_empty = refl

-- The one free byte is the one before the oldest.
put_one : put wrapped (5 ∷ 6 ∷ []) ≡ some (record wrapped { fill = 4; buf = 9 ∷ 5 ∷ 7 ∷ 8 ∷ [] }, 1)
unfolding put put_round
put_one = refl

get_two_parts : get wrapped 3 ≡ some (record wrapped { pos = 1; fill = 0 }, 7 ∷ 8 ∷ 9 ∷ [])
unfolding get get_round
get_two_parts = refl

run_refines_example : run wrapped script ≡ some (spec_run 4 (7 ∷ 8 ∷ 9 ∷ []) script)
run_refines_example = run_refines script wrapped wrapped-IsValid

put-contents_example :
    (ring : Fifo) × (put wrapped (5 ∷ 6 ∷ []) ≡ some (ring, min 2 (space wrapped)))
    × (contents ring ≡ contents wrapped ++ take (space wrapped) (5 ∷ 6 ∷ []))
    × IsValid ring
    × (ring.size ≡ 4)
put-contents_example = put-contents wrapped (5 ∷ 6 ∷ []) wrapped-IsValid

get-contents_example :
    (ring : Fifo) × (get wrapped 2 ≡ some (ring, 7 ∷ 8 ∷ []))
    × (contents ring ≡ 9 ∷ [])
    × IsValid ring
    × (ring.size ≡ 4)
get-contents_example = get-contents wrapped 2 wrapped-IsValid

copies_in_bounds_example :
    ((put_span wrapped).0 + clip (put_span wrapped).1 2 ≤ 4)
    × (3 + clip (put_span wrapped).1 2 ≤ 4)
    × (2 + clip (get_span 4 2 3) 2 ≤ 4)
    × (5 < 2 ^ 31)
copies_in_bounds_example = copies_in_bounds wrapped 2 wrapped-IsValid (omega arith)
