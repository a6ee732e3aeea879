-- ===== src/Message/TravelLogs.antt =====
-- crates/message/src/travel_logs.rs: the buffer over an implementation of the trait `Metadata`,
-- which is a record of operations on a state of its own. What other threads do between the two
-- exchanges of `allocate` is an argument. The memory of the messages is left out. A field `data` of
-- the code is the field `content`.
pub mod Ranges
pub mod Allocate
use ecs_compositor.Prelude.{ℕ, ◌+◌, ◌-◌, Option, none, some, ltb, leb, ◌==◌, if◌then◌else◌}

pub record Point : Type 0 where
  pub slot : ℕ
  pub content : ℕ

pub record Range : Type 0 where
  pub from : ℕ
  pub upto : ℕ

abbrev pub range : ℕ → ℕ → Range
range a b = record { from = a; upto = b }

pub record PointRange : Type 0 where
  pub slot : Range
  pub content : Range

-- `PointRange::to`.
abbrev pub to : PointRange → Point
to r = record { slot = r.slot.upto; content = r.content.upto }

-- `Range::EMPTY`.
abbrev pub empty : Range
empty = range 0 0

-- `Range::invert`.
unfoldable pub invert : Range → ℕ → Range
invert r capacity = range r.upto (if r.from == 0 then capacity - 1 else r.from - 1)

-- `into_ring_bounds`: one range, or two.
unfoldable pub into_ring_bounds : Range → ℕ → Range × Option Range
into_ring_bounds r capacity =
    if leb r.from r.upto
    then (range r.from r.upto, none)
    else (range r.from capacity, some (range 0 r.upto))

-- The trait `Metadata`.
pub record Metadata : Type 1 where
  pub State : Type 0
  pub Handle : Type 0
  pub capacity : State → Point
  pub alloc : PointRange → State → Handle × State
  pub mark_dead : PointRange → PointRange → Handle → State → Option PointRange × State
  pub dealloc : PointRange → State → Point × State

module _ (T : Metadata) where
  pub record Buffer : Type 0 where
    pub metadata : T.State
    pub slot_next : ℕ
    pub slot_free : ℕ
    pub data_next : ℕ
    pub data_free : ℕ

  pub record Handle : Type 0 where
    pub range : PointRange
    pub handle : T.Handle

  -- `Buffer::new`.
  unfoldable pub new : T.State → Buffer
  new s = record { metadata = s; slot_next = 0; slot_free = 0; data_next = 0; data_free = 0 }

  -- `allocated_range`.
  unfoldable pub allocated_range : Buffer → PointRange
  allocated_range b = record {
    slot = range b.slot_free b.slot_next;
    content = range b.data_free b.data_next;
  }

  unfoldable pub dealloc : PointRange → Buffer → Buffer
  dealloc free b =
      let (point, s) = T.dealloc free b.metadata in
      record b { metadata = s; slot_free = point.slot; data_free = point.content }

  -- What `mark_dead` does with the answer of the metadata.
  abbrev pub dealloc_if : Option PointRange × T.State → Buffer → Buffer
  dealloc_if (none, s) b = record b { metadata = s }
  dealloc_if (some free, s) b = dealloc free (record b { metadata = s })

  unfoldable pub mark_dead : PointRange → T.Handle → Buffer → Buffer
  mark_dead dead handle b = dealloc_if (T.mark_dead (allocated_range b) dead handle b.metadata) b

  -- `allocate`, from the first exchange to the last call; `others` is what the other threads do in
  -- between.
  abbrev pub slots_only : PointRange → PointRange
  slots_only r = record { slot = r.slot; content = empty }

  unfoldable pub allocate_data : PointRange → Buffer → Option Handle × Buffer
  allocate_data r b =
      if b.data_next == r.content.from
      then (let (handle, s) = T.alloc r b.metadata in
          (
            some (record { range = r; handle = handle }),
            record b { data_next = r.content.upto; metadata = s },
          ))
      else (let (handle, s) = T.alloc (slots_only r) b.metadata in
          (none, mark_dead (slots_only r) handle (record b { metadata = s })))

  unfoldable pub allocate : (Buffer → Buffer) → PointRange → Buffer → Option Handle × Buffer
  allocate others r b =
      if b.slot_next == r.slot.from
      then allocate_data r (others (record b { slot_next = r.slot.upto }))
      else (none, b)
