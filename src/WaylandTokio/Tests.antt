-- ===== src/WaylandTokio/Tests.antt =====
-- The theorems on spans at concrete values.
use ecs_compositor.Prelude.{◌≡◌, refl, ◌++◌, arith, inr, drop, some}
use ecs_compositor.WaylandTokio.Span.{Span, range, read_slice, free_space, consume, produce}
use ecs_compositor.WaylandTokio.Span.Queue.{indices, IsSpan, span}
use ecs_compositor.WaylandTokio.Span.Consume.{consume-drop}
use ecs_compositor.WaylandTokio.Span.Produce.{new_indices, produce-append}

-- A ring of eight places with the last two and the first three in use.
abbrev wrapped : Span
wrapped = span 6 3 8

consume-drop_example :
    (indices (consume wrapped 2) ≡ drop 2 (indices wrapped)) × IsSpan (consume wrapped 2)
consume-drop_example = consume-drop wrapped 2 (inr (omega arith, omega arith)) (omega arith)

produce-append_example :
    (indices (produce (span 4 6 8) 3) ≡ indices (span 4 6 8) ++ new_indices (span 4 6 8) 3)
    × IsSpan (produce (span 4 6 8) 3)
produce-append_example =
    produce-append (span 4 6 8) 3 (inr (omega arith, omega arith)) (inr (omega arith))

-- A slice is taken from the first part alone.
read_slice-wrapped : read_slice wrapped 2 ≡ some (range 6 8)
unfolding read_slice free_space
read_slice-wrapped = refl
