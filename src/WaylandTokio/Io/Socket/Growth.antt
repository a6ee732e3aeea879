-- ===== src/WaylandTokio/Io/Socket/Growth.antt =====
-- The buffers of crates/wayland-tokio/src/drive_io.rs grow by what comes from the socket.
use ecs_compositor.Prelude.{
  ℕ, ◌+◌, ◌≤◌, ◌<◌, ◌≡◌, refl, sym, ap, subst, ◌∙◌, ◌⊎◌, inl, inr, List, [], ◌∷◌, ◌++◌, append-nil,
  true, Bool-cases, ltb, ltb→lt, ltb→le, none, some, Option, arith, length, drop, length-append,
  length-drop,
}
use ecs_compositor.Core.Value.{RawFd}
use ecs_compositor.WaylandTokio.Io.{RingBuf, whole, is_nil}
use ecs_compositor.WaylandTokio.Io.Socket.{
  rewound, compacted, appended, Control, rights, other, take_rights,
}

-- `c` has new items behind those of `b`, in memory of the same size.
pub record Grows {A : Type 0} (b : RingBuf A) (new : List A) (c : RingBuf A) : Type 0 where
  pub in_order : c.items ≡ b.items ++ new
  pub same_size : length (whole c) ≡ length (whole b)

length-whole :
    {A : Type 0} (b : RingBuf A)
    → length (whole b) ≡ length b.before + (length b.items + length b.unused)
length-whole b =
    omega (arith, length-append b.before (b.items ++ b.unused), length-append b.items b.unused)

module _ {A : Type 0} where
  pub same-Grows :
      (b c : RingBuf A) → c.items ≡ b.items → length (whole c) ≡ length (whole b) → Grows b [] c
  same-Grows b c p q = record { in_order = p ∙ sym (append-nil b.items); same_size = q }

  grown : List A → RingBuf A → RingBuf A
  grown new b = record b { items = b.items ++ new; unused = drop (length new) b.unused }

  appended-Grows :
      (new : List A) (b : RingBuf A) → length new ≤ length b.unused → Grows b new (grown new b)
  unfolding grown
  appended-Grows new b h = record {
    in_order = refl;
    same_size = omega (
      arith,
      length-whole b,
      length-whole (record b { items = b.items ++ new; unused = drop (length new) b.unused }),
      length-append b.items new,
      length-drop (length new) b.unused,
    );
  }

  pub appended_cases :
      (new : List A) (b : RingBuf A)
      → ((length b.unused < length new) × (appended new b ≡ none))
        ⊎ ((c : RingBuf A) × (appended new b ≡ some c) × Grows b new c)
  unfolding appended grown
  appended_cases new b = elim (Bool-cases (ltb (length b.unused) (length new))) [
    | inl short ↦ inl (ltb→lt _ _ short, rw short refl)
    | inr roomy ↦ inr (grown new b, rw roomy refl, appended-Grows new b (ltb→le _ _ roomy))
  ]

  pub Grows-after :
      {b c d : RingBuf A} {new : List A} → Grows b [] c → Grows c new d → Grows b new d
  Grows-after {b} {c} {d} {new} g h = record {
    in_order = h.in_order ∙ ap (λ l. l ++ new) (g.in_order ∙ append-nil b.items);
    same_size = h.same_size ∙ g.same_size;
  }

-- The descriptors that a `recvmsg` delivers: those of the first control message that has some.
abbrev pub first_rights : List Control → List RawFd
first_rights [] = []
first_rights (other ∷ later) = first_rights later
first_rights (rights fds ∷ later) = fds

abbrev pub RightsCases : List RawFd → RingBuf RawFd → Option (RingBuf RawFd) → Type 0
RightsCases new fd none = length fd.unused < length new
RightsCases new fd (some c) = Grows fd new c

pub take_rights-Grows :
    (ctrl : List Control) (fd : RingBuf RawFd)
    → RightsCases (first_rights ctrl) fd (take_rights ctrl fd)
unfolding take_rights
take_rights-Grows [] fd = same-Grows fd fd refl refl
take_rights-Grows (other ∷ later) fd = take_rights-Grows later fd
take_rights-Grows (rights fds ∷ later) fd = elim (appended_cases fds fd) [
  | inl (short, e) ↦ subst (RightsCases fds fd) (sym e) short
  | inr (c, e, g) ↦ subst (RightsCases fds fd) (sym e) g
]

nil_items : {A : Type 0} (xs : List A) → is_nil xs ≡ true → [] ≡ xs
nil_items [] e = refl
nil_items (x ∷ xs) e = cc

pub rewound-Grows : (da : RingBuf ℕ) → Grows da [] (rewound da)
unfolding rewound
rewound-Grows da = elim (Bool-cases (is_nil da.items)) [
  | inl e ↦ rw e (
      same-Grows da (record { before = []; items = []; unused = whole da }) (nil_items da.items e)
        refl)
  | inr e ↦ rw e (same-Grows da da refl refl)
]

pub compacted-Grows : (fd : RingBuf RawFd) → Grows fd [] (compacted fd)
unfolding compacted
compacted-Grows fd = elim (Bool-cases (is_nil fd.items)) [
  | inl e ↦ rw e (
      same-Grows fd (record { before = []; items = []; unused = whole fd }) (nil_items fd.items e)
        refl)
  | inr e ↦ elim (Bool-cases (ltb (length fd.unused) 4)) [
    | inl full ↦
        rw (e, full)
          (same-Grows fd
            (record { before = []; items = fd.items; unused = drop (length fd.items) (whole fd) })
            refl
            (omega (
              arith,
              length-whole fd,
              length-append fd.items (drop (length fd.items) (whole fd)),
              length-drop (length fd.items) (whole fd),
            )))
    | inr roomy ↦ rw (e, roomy) (same-Grows fd fd refl refl)
  ]
]
